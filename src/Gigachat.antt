-- ===== src/Gigachat.antt =====
-- app/providers/gigachat.py: the planner over HTTP. The exchanges with the two servers are inputs:
-- what `requests` returns or raises; a time is a number of milliseconds.
pub mod Token
pub mod Candidates
pub mod Json
pub mod Planner
pub mod Turn
