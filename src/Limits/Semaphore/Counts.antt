-- ===== src/Limits/Semaphore/Counts.antt =====
-- The local counts are exact: each is the number of permits that are out.
use newapi_risk_platform.Base.{
  ℕ, zero, suc, ◌+◌, ◌-◌, ◌≤◌, ◌≡◌, refl, Bool, false, String, List, [], ◌∷◌, arith, eq_iff, str_eq,
  if◌then◌else◌, All, ◌⊎◌, ◌&&◌,
}
use newapi_risk_platform.Base.Maps
use newapi_risk_platform.Base.Maps.{lookup, lookup-put, lookup-delete}
use newapi_risk_platform.Limits.Semaphore.{
  RedisReply, disabled, failed, replied, Permit, unlimited, remote, refused, counted, Semaphores,
  count, acquire_local, acquire, release_local, Handle, System, Op, take, give, release_permit,
  release_handle, step, run, start, or_zero,
}

abbrev holds : String → Permit → Bool
holds key (counted j) = str_eq j key
holds _ _ = false

-- The permits of a key that are out.
unfoldable pub live_count : String → List Handle → ℕ
live_count key [] = 0
live_count key (h ∷ hs) = (if h.live && holds key h.permit then 1 else 0) + live_count key hs

count-release_permit :
    (key : String) (p : Permit) (g : Semaphores)
    → count key (release_permit p g) ≡ (if holds key p then count key g - 1 else count key g)
unfolding release_permit release_local count
count-release_permit key unlimited g = refl
count-release_permit key remote g = refl
count-release_permit key refused g = refl
count-release_permit key (counted j) g = ground (
  arith,
  eq_iff j key,
  lookup-put j key (or_zero (Maps.lookup j g.counts) - 1) g.counts,
  lookup-delete j key g.counts,
)

count-acquire :
    (key j : String) (limit : ℕ) (reply : RedisReply) (g : Semaphores)
    → count key (acquire j limit reply g).1
      ≡ count key g + (if holds key (acquire j limit reply g).0 then 1 else 0)
unfolding acquire acquire_local count
count-acquire key j zero reply g = ground arith
count-acquire key j (suc limit) (replied n) g = ground arith
count-acquire key j (suc limit) disabled g =
    ground (arith, eq_iff j key, lookup-put j key (or_zero (Maps.lookup j g.counts) + 1) g.counts)
count-acquire key j (suc limit) failed g =
    ground (arith, eq_iff j key, lookup-put j key (or_zero (Maps.lookup j g.counts) + 1) g.counts)

-- What the release of one handle changes, on both sides.
count-release_handle :
    (key : String) (i : ℕ) (hs : List Handle) (g : Semaphores)
    → live_count key hs ≤ count key g
    → count key (release_handle i hs g).1 + live_count key hs
      ≡ count key g + live_count key (release_handle i hs g).0
unfolding release_handle live_count
count-release_handle key i [] g le = omega arith
count-release_handle key zero (h ∷ hs) g le = ground (arith, count-release_permit key h.permit g)
count-release_handle key (suc i) (h ∷ hs) g le = ground (arith, count-release_handle key i hs g)

count-step :
    (key : String) (op : Op) (s : System)
    → count key s.semaphores ≡ live_count key s.handles
    → count key (step op s).semaphores ≡ live_count key (step op s).handles
unfolding step live_count
count-step key (take j limit reply) s e =
    grind (arith, count-acquire key j limit reply s.semaphores)
count-step key (give i) s e = ground (arith, count-release_handle key i s.handles s.semaphores)

count-run :
    (key : String) (ops : List Op) (s : System)
    → count key s.semaphores ≡ live_count key s.handles
    → count key (run ops s).semaphores ≡ live_count key (run ops s).handles
unfolding run
count-run key [] s e = e
count-run key (op ∷ ops) s e = count-run key ops (step op s) (count-step key op s e)

count-start : (key : String) → count key start.semaphores ≡ live_count key start.handles
unfolding count live_count lookup
count-start key = refl

-- After any sequence of acquisitions and releases, repeated and unknown releases included and whatever Redis replies,
-- the local count of a key is the number of local permits of that key that have not been released.
pub counts_exact :
    (key : String) (ops : List Op)
    → count key (run ops start).semaphores ≡ live_count key (run ops start).handles
counts_exact key ops = count-run key ops start (count-start key)

-- A request for a key asks for no more than a bound.
abbrev AsksAtMost : String → ℕ → Op → Type 0
AsksAtMost key most (take j limit reply) = (str_eq j key ≡ false) ⊎ (limit ≤ most)
AsksAtMost key most (give i) = Unit

count_acquire_le :
    (key j : String) (limit most : ℕ) (reply : RedisReply) (g : Semaphores)
    → (str_eq j key ≡ false) ⊎ (limit ≤ most)
    → count key g ≤ most
    → count key (acquire j limit reply g).1 ≤ most
unfolding acquire acquire_local count
count_acquire_le key j zero most reply g ask le = le
count_acquire_le key j (suc limit) most (replied n) g ask le = le
count_acquire_le key j (suc limit) most disabled g ask le =
    ground (arith, eq_iff j key, lookup-put j key (or_zero (Maps.lookup j g.counts) + 1) g.counts)
count_acquire_le key j (suc limit) most failed g ask le =
    ground (arith, eq_iff j key, lookup-put j key (or_zero (Maps.lookup j g.counts) + 1) g.counts)

count_release_le :
    (key : String) (i : ℕ) (hs : List Handle) (g : Semaphores)
    → count key (release_handle i hs g).1 ≤ count key g
unfolding release_handle
count_release_le key i [] g = omega arith
count_release_le key zero (h ∷ hs) g = ground (arith, count-release_permit key h.permit g)
count_release_le key (suc i) (h ∷ hs) g = ground (arith, count_release_le key i hs g)

count_run_le :
    (key : String) (most : ℕ) (ops : List Op) (s : System)
    → All (AsksAtMost key most) ops
    → count key s.semaphores ≤ most
    → count key (run ops s).semaphores ≤ most
unfolding run step
count_run_le key most [] s ask le = le
count_run_le key most (take j limit reply ∷ ops) s ask le =
    count_run_le key most ops (step (take j limit reply) s) ask.1
      (count_acquire_le key j limit most reply s.semaphores ask.0 le)
count_run_le key most (give i ∷ ops) s ask le =
    count_run_le key most ops (step (give i) s) ask.1
      (ground (arith, count_release_le key i s.handles s.semaphores))

-- When every acquisition of a key in a sequence asks for at most `most` permits, no more than `most` local permits of that
-- key are out after the sequence.
pub live_count_le :
    (key : String) (most : ℕ) (ops : List Op)
    → All (AsksAtMost key most) ops
    → live_count key (run ops start).handles ≤ most
unfolding live_count
live_count_le key most ops ask =
    let none_yet : count key start.semaphores ≤ most = ground (arith, count-start key) in
    let le = count_run_le key most ops start ask none_yet in rw (counts_exact key ops) at le
