-- ===== src/Redis.antt =====
-- demo/src/os/unix/ngx_redis_message.c: `ngx_process_parse_message`, which reads what the redis
-- server sends to a subscriber.
pub mod Connection
pub mod Parser
pub mod Steps
pub mod Bounds
pub mod Message
pub mod Complete
