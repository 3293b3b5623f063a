-- ===== src/Chats.antt =====
-- service-chats and its message store: rooms, sockets and messages.
mod Messages
mod Rooms
mod Receive
mod Views
mod Refine
mod Sending
mod Authors
mod Pages
mod Admission
mod Tests
