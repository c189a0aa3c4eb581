-- ===== src/Tests.antt =====
-- Runs of the components on concrete data.
mod TableRuns
mod InputRuns
mod QueueRuns
mod QuitRuns
mod IgnoreRuns
mod TextRuns
mod MessageRuns
mod HotlistRuns
mod ChannelRuns
mod SpeechRuns
