-- ===== src/Tests.antt =====
-- Concrete runs of the components, one for each theorem that has hypotheses.
mod Queue
mod Buffers
mod Windows
mod Reading
mod Logging
mod Json
mod Chains
mod Summaries
mod Traces
mod Lines
mod Redaction
mod Exits
mod Nesting
mod Files
mod Policies
mod Spans
