-- ===== src/Access/Caveat/RoundTrip.antt =====
-- Caveats and their protobuf messages: what is decoded of an encoding.
use storj_uplink.Access.Caveat.{
  Caveat, to_proto, from_proto, Codec, CodecLaws, path_to_proto, path_from_proto, and_then, encode,
  decode,
}
use mathlib.Core.Option
use storj_uplink.Access.Prefixes.{CaveatPath}
use storj_uplink.Access.Time.{
  SystemTime, Duration, billion, timestamp_from_system, system_from_timestamp, duration_from_std,
  std_from_duration, IsInRange, saturated_time, saturated_duration, system_from_timestamp-saturated,
  std_from_duration-saturated,
}
use storj_uplink.Common.{◌<◌, ◌≡◌, refl, ap, List, [], ◌∷◌, map, Option, none, some, ok}

-- The values that the fields of a caveat can have: seconds within i64 and nanoseconds below a second
-- in its times, nanoseconds below a second in its lifetime.
pub record IsHeld (c : Caveat) : Type 0 where
  pub after_time : (t : SystemTime) → c.not_after ≡ some t → IsInRange t
  pub before_time : (t : SystemTime) → c.not_before ≡ some t → IsInRange t
  pub ttl : (d : Duration) → c.max_object_ttl ≡ some d → d.nanos < billion

-- The caveat with its times and its lifetime cut off as the conversions do.
abbrev pub saturated : Caveat → Caveat
saturated c = record c {
  not_after = Option.map saturated_time c.not_after;
  not_before = Option.map saturated_time c.not_before;
  max_object_ttl = Option.map saturated_duration c.max_object_ttl;
}

time_back :
    (o : Option SystemTime)
    → ((t : SystemTime) → o ≡ some t → IsInRange t)
    → and_then (Option.map timestamp_from_system o) system_from_timestamp
      ≡ Option.map saturated_time o
time_back none h = refl
time_back (some t) h = system_from_timestamp-saturated t (h t refl)

ttl_back :
    (o : Option Duration)
    → ((d : Duration) → o ≡ some d → d.nanos < billion)
    → and_then (Option.map duration_from_std o) std_from_duration ≡ Option.map saturated_duration o
ttl_back none h = refl
ttl_back (some d) h = std_from_duration-saturated d (h d refl)

paths_back : (ps : List CaveatPath) → map path_from_proto (map path_to_proto ps) ≡ ps
paths_back [] = refl
paths_back (p ∷ ps) = ap (◌∷◌ p) (paths_back ps)

from_proto-to_proto : (c : Caveat) → IsHeld c → from_proto (to_proto c) ≡ saturated c
unfolding from_proto to_proto
from_proto-to_proto c v = rw (time_back c.not_after v.after_time) (
    rw (time_back c.not_before v.before_time)
      (rw (ttl_back c.max_object_ttl v.ttl) (rw (paths_back c.allowed_paths) refl)))

-- A caveat is decoded from its encoding to itself, with times before the epoch too, but for what the
-- conversion of times cuts off: a time with i64::MIN seconds and no nanoseconds comes back a second
-- later, and a lifetime of more than i64::MAX seconds with i64::MAX of them. The seconds of the
-- times must be in i64 and all nanoseconds below a second, as the types of the platform have them.
-- Decoding of the message is assumed to undo its encoding.
pub decode-encode_caveat :
    (codec : Codec) (laws : CodecLaws codec) (c : Caveat)
    → IsHeld c
    → decode codec (encode codec c) ≡ ok (saturated c)
unfolding decode encode
decode-encode_caveat codec laws c v =
    rw (laws.decode-encode (to_proto c)) (ap ok (from_proto-to_proto c v))
