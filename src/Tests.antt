-- ===== src/Tests.antt =====
-- The theorems at concrete inputs, and runs of the model.
mod Amqp
mod Gateway
mod RoleSample
mod Pluralkit
mod Roles
mod Cache
mod Redis
mod Repositories
mod Framework
mod FrontSample
mod Fronts
mod Setup
