-- ===== src/Core/Applications.antt =====
-- crates/librewave-core/src/applications.rs: the identities of applications and their saved
-- assignments to mixer sources.
use libre_wave.Common.{ℕ, Bool, holds}
use libre_wave.Core.InputName.{InputName, Text-discrete}

pub data ApplicationId : Type 0 where
  desktop executable : InputName → ApplicationId

pub record ApplicationAssignment : Type 0 where
  pub application : ApplicationId
  pub source : ℕ

-- The derived `==`.
unfoldable pub ApplicationId-discrete : Discrete ApplicationId
unfolding Text-discrete
ApplicationId-discrete = hlevel Text-discrete

abbrev pub same_application : ApplicationId → ApplicationId → Bool
same_application a b = holds (ApplicationId-discrete a b)
