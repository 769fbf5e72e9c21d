-- ===== src/Tests.antt =====
-- Runs of the code on small inputs: each theorem of the library at a place where its hypotheses hold.
mod Handling
mod Queueing
mod Programs
mod Indexing
mod Numbers
mod Outlining
mod Fronts
mod Storing
mod Floating
mod Submitting
