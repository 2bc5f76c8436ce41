-- ===== src/Appliances.antt =====
-- packages/core/src: the servers of the appliance clusters, which call the device's own handler of
-- a command and then update the attributes: devices/microwaveOven.ts, devices/evse.ts,
-- behaviors/operationalStateServer.ts and behaviors/valveConfigurationAndControlServer.ts.
pub mod Microwave
pub mod Evse
pub mod OperationalState
pub mod Valve
pub mod Tests
use matterbridge.Base.{◌≡◌, Result, ok, err}

-- commandHandler.executeHandler: the device's own code, which gets the attributes and the request,
-- may change the attributes, and may throw, which ends the command.
abbrev pub CommandHandler : Type 0 → Type 0 → Type 0 → Type 0
CommandHandler E S R = S → R → Result E S

-- The device's code keeps a property of the attributes.
abbrev pub Keeps : {E S R : Type 0} → (S → Type 0) → CommandHandler E S R → Type 0
Keeps {S} {R} P handler = (s : S) (r : R) (s' : S) → P s → handler s r ≡ ok s' → P s'

-- The attributes after a command: one that throws leaves them.
abbrev pub attributes_after : {E S : Type 0} → S → Result E S → S
attributes_after s (ok s') = s'
attributes_after s (err e) = s
