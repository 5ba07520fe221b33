-- ===== src/Service/Tests.antt =====
-- The health of caller sessions at concrete inputs.
use linkedin_api.Base.{◌≡◌, refl, true, false, [], Text, codes, text_eq}
use linkedin_api.Base.Duration.{add_duration}
use linkedin_api.Base.Dict.{get, put, delete}
use linkedin_api.Base.Expiry.{check, mark, make_room}
use linkedin_api.Service.CallerHealth.{CallerHealth, unhealthy, mark_unhealthy}

abbrev fp : Text
fp = codes "cs_a"

abbrev marked : CallerHealth
marked = mark_unhealthy (record { ttl = 60; max = 4096; entries = [] }) fp 0 10 10

-- Unhealthy until its retention window has passed.
marked_run : ((unhealthy marked fp 70).0 ≡ true) × ((unhealthy marked fp 71).0 ≡ false)
unfolding mark_unhealthy unhealthy text_eq add_duration get put delete check mark make_room
marked_run = (refl, refl)
