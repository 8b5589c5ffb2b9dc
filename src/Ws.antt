-- ===== src/Ws.antt =====
-- main/web_server.c: the WebSocket side. Serial output goes through a ring of slots to the httpd
-- task, which sends it to the clients that registered at an authenticated handshake.
pub mod Ring
pub mod Clients
pub mod Wakeup
pub mod Tests
