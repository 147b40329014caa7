-- ===== src/Tests.antt =====
-- Runs of the models on concrete inputs, and the theorems at concrete arguments.
mod Domain
mod Keys
mod Limits
mod Handlers
mod Race
mod Store
mod Uploads
mod Worker
mod Bucket
mod Runner
mod Migrate
mod Startup
mod Server
mod Boot
