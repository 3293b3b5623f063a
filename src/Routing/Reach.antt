-- ===== src/Routing/Reach.antt =====
-- Which handlers of the services a request without a user reaches through the gateway.
use rust_service.Base.{nat_partial_eq, pair_partial_eq, bytes_partial_eq}
use rust_service.Gateway.Answers.{Upstream}
