-- ===== src/Http/Chunked.antt =====
-- weightless/http/_httprequest1_1.py: `_deChunk`, `_oneChunk` and `_trailers`, which take the chunked
-- transfer encoding off a response body that arrives in pieces.
pub mod Code
pub mod Decoder
pub mod Refines
pub mod Split
pub mod Encode
pub mod RoundTrip
