-- ===== src/MessageTrees.antt =====
-- messaging/trees: the conversations of a chat as trees of messages. The queue of the messages
-- of a tree that wait for their turn, the graph of its nodes, and the calls that change both.
pub mod Queue
pub mod QueueOrder
pub mod Graph
pub mod References
pub mod History
pub mod Transitions
pub mod Walk
pub mod Runtime
pub mod Cancel
pub mod Sound
pub mod Claiming
pub mod Admission
pub mod HandOver
pub mod Writing
pub mod Cancelling
mod Stopping
mod Stopped
mod StoppedAll
mod Affecting
mod Trimming
mod Kept
mod Removing
mod RemovedThread
mod Failing
mod FailedClaim
mod Adding
mod Steps
mod WalkEnds
mod Forest
mod Descendants
mod Threads
mod Thinning
mod Additions
mod ReferenceTree
mod ReferenceWalk
mod Replies
mod Thread
pub mod Snapshot
mod Restoring
mod Examples
mod RunExamples
