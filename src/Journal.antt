-- ===== src/Journal.antt =====
-- src/Journal: the state of a journal, and the requests that a writer makes of it. Every request
-- holds the journal's one lock from its first to its last step, so a request is one step.
-- `Journal/Epochs.antt` has what the requests share, `Journal/Segments.antt` the life of a segment,
-- `Journal/Recovery.antt` the recovery of one, `Journal/Manifest.antt` the list of segments and
-- `Journal/Opening.antt` the constructor.
pub mod State
pub mod Epochs
pub mod Scanning
pub mod Segments
pub mod Recovery
pub mod Manifest
pub mod Opening
pub mod Requests
