-- ===== src/Tests.antt =====
-- Runs of the model on concrete inputs, and the theorems at inputs that meet their hypotheses.
mod Limits
mod Guard
mod Buffer
mod Delivery
mod Streams
mod Files
mod Waiting
mod Requests
mod Tables
mod Cookies
mod Serving
mod Turns
mod Admin
