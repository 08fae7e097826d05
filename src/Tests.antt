-- ===== src/Tests.antt =====
-- Concrete inputs for the theorems about each part of the program.
mod RequestLine
mod Response
mod Reading
mod Headers
mod Pool
mod Waiting
mod Format
mod HeaderLoop
mod HeaderLine
mod Digests
mod Tables
mod Text
mod Times
mod Redis
mod Queue
mod Channels
mod Table
