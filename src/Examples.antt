-- ===== src/Examples.antt =====
-- The theorems at concrete inputs, and small tests of the definitions.
mod Graphs
mod Correlation
mod Incidents
mod Scores
mod Checks
mod Histories
mod Detections
mod Adapters
mod Scorecards
mod Runs
mod Sensors
