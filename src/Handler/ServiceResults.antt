-- ===== src/Handler/ServiceResults.antt =====
-- What comes of the registration and the removal of a service type.
use ons_sawtooth.Sdk.{Sdk}
use ons_sawtooth.World.{World}
