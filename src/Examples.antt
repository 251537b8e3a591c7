-- ===== src/Examples.antt =====
-- Tests of the models on concrete inputs, and instances of the theorems.
mod Decoding
mod Parsing
mod Responding
mod Dispatching
mod Uploads
mod Requests
mod Files
mod Serving
mod Pooling
mod Documents
mod Connecting
mod Pages
mod Configuring
mod Variables
