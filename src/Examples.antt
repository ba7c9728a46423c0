-- ===== src/Examples.antt =====
-- The theorems at concrete inputs, and runs of the definitions.
mod Encoding
mod Recognising
mod Reading
mod Expanding
mod Texts
mod Completing
mod Rendering
mod Loops
mod Lifting
mod Apart
mod Series
mod Requests
mod Rules
mod Learning
mod Answers
