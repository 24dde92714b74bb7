-- ===== src/Limits/Semaphore.antt =====
-- `Acquire` of internal/platform/redis.go, with the release that it hands back. Redis is a reply:
-- there is no client, the script failed, or it answered.
pub mod Counts
use newapi_risk_platform.Base.{
  ℕ, zero, suc, ◌+◌, ◌-◌, Bool, true, false, String, List, [], ◌∷◌, ◌++◌, Option, none, some, ltb,
  leb, ◌==◌, if◌then◌else◌,
}
use newapi_risk_platform.Base.Maps
use newapi_risk_platform.Base.Maps.{Dict}

pub data RedisReply : Type 0 where
  disabled failed : RedisReply
  replied : ℕ → RedisReply

-- How a caller came by its permit: with no limit, from Redis under a token, or from the local count.
pub data Permit : Type 0 where
  unlimited remote refused : Permit
  counted : String → Permit

pub record Semaphores : Type 0 where
  pub available : Bool
  pub counts : Dict ℕ

-- A missing key reads as zero.
abbrev or_zero : Option ℕ → ℕ
or_zero none = 0
or_zero (some n) = n

unfoldable pub count : String → Semaphores → ℕ
count key g = or_zero (Maps.lookup key g.counts)

unfoldable pub acquire_local : String → (limit : ℕ) → Semaphores → Permit × Semaphores
acquire_local key limit g =
    if leb limit (count key g)
    then (refused, g)
    else (counted key, record g { counts = Maps.put key (count key g + 1) g.counts })

-- A limit of zero stands for every limit that is not positive.
unfoldable pub acquire : String → (limit : ℕ) → RedisReply → Semaphores → Permit × Semaphores
acquire key zero reply g = (unlimited, g)
acquire key (suc limit) (replied n) g =
    (if n == 1 then remote else refused, record g { available = true })
acquire key (suc limit) disabled g = acquire_local key (suc limit) g
acquire key (suc limit) failed g = acquire_local key (suc limit) (record g { available = false })

unfoldable pub release_local : String → Semaphores → Semaphores
release_local key g =
    if ltb 1 (count key g)
    then record g { counts = Maps.put key (count key g - 1) g.counts }
    else record g { counts = Maps.delete key g.counts }

-- The permits that were handed out, and whether the release of each has run (`sync.Once`).
pub record Handle : Type 0 where
  pub permit : Permit
  pub live : Bool

pub record System : Type 0 where
  pub semaphores : Semaphores
  pub handles : List Handle

pub data Op : Type 0 where
  take : String → (limit : ℕ) → RedisReply → Op
  give : ℕ → Op

-- What the release does to the counts; a permit of Redis is given back there.
unfoldable pub release_permit : Permit → Semaphores → Semaphores
release_permit (counted key) g = release_local key g
release_permit _ g = g

unfoldable pub release_handle : ℕ → List Handle → Semaphores → List Handle × Semaphores
release_handle i [] g = ([], g)
release_handle zero (h ∷ hs) g =
    if h.live then (record h { live = false } ∷ hs, release_permit h.permit g) else (h ∷ hs, g)
release_handle (suc i) (h ∷ hs) g = let (hs', g') = release_handle i hs g in (h ∷ hs', g')

abbrev is_refused : Permit → Bool
is_refused refused = true
is_refused _ = false

unfoldable pub step : Op → System → System
step (take key limit reply) s =
    let (p, g) = acquire key limit reply s.semaphores in
    record {
      semaphores = g;
      handles = if is_refused p then s.handles else record { permit = p; live = true } ∷ s.handles;
    }
step (give i) s =
    let (hs, g) = release_handle i s.handles s.semaphores in record { semaphores = g; handles = hs }

unfoldable pub run : List Op → System → System
run [] s = s
run (op ∷ ops) s = run ops (step op s)

abbrev pub start : System
start = record { semaphores = record { available = false; counts = [] }; handles = [] }
