-- ===== src/Adaptive/Users.antt =====
-- The count of a candidate's users.
use newapi_risk_platform.Base.{
  ℕ, ◌≡◌, ◌≤◌, ◌++◌, refl, sym, ap, ◌∙◌, Bool, true, false, ◌&&◌, String, List, [], ◌∷◌, Option,
  none, some, str_eq, if_holds, arith, Bool-cases, inl, inr, eq_iff, subst, count_if,
  count_if-append,
}
use newapi_risk_platform.Base.Maps
use newapi_risk_platform.Base.Maps.{Dict, lookup-put}
use newapi_risk_platform.Audit.{Verdict}
use newapi_risk_platform.Adaptive.{
  Candidate, Tables, AdaptiveRulePolicy, Status, candidate, shadow, promoted, rejected, merged,
  is_user_of, has_user, add_user, upsert_candidate, upsert_cyber_rule_candidate,
  set_cyber_rule_candidate_status, with_status, is_promoted, promote_cyber_rule_candidate,
  mark_promoted, Learned, Reply, is_ripe, promote_if_ripe, process_adaptive_failure, Op, learn,
  set_status, approve, step, run, promote_cyber_rule_candidate_manual, approve_row, is_absent,
  is_open,
}

-- A candidate's count is the number of its users; there are no users of a candidate that does not exist. Its fingerprint is
-- its key.
abbrev pub IsCountedRow : String → List (String × String) → Option Candidate → Type 0
IsCountedRow f users none = count_if (is_user_of f) users ≡ 0
IsCountedRow f users (some c) =
    (c.distinct_users ≡ count_if (is_user_of f) users) × (c.fingerprint ≡ f)

unfoldable pub IsCounted : Tables → Type 0
IsCounted t = (f : String) → IsCountedRow f t.users (Maps.lookup f t.candidates)

-- A row is put, and the users of the other candidates stay as many as they were.
put-IsCounted :
    (f : String) (c : Candidate) (rows : Dict Candidate) (users users' : List (String × String))
    → IsCountedRow f users' (some c)
    → ((g : String) → IsCountedRow g users (Maps.lookup g rows))
    → ((g : String)
        → str_eq f g ≡ false
        → count_if (is_user_of g) users' ≡ count_if (is_user_of g) users)
    → (g : String) → IsCountedRow g users' (Maps.lookup g (Maps.put f c rows))
put-IsCounted f c rows users users' new old others g =
    subst (IsCountedRow g users') (sym (lookup-put f g c rows)) (elim (Bool-cases (str_eq f g)) [
      | inl same ↦
          rw same (subst (λ (h : String). IsCountedRow h users' (some c)) ((eq_iff f g).0 same) new)
      | inr apart ↦ rw apart (moved (Maps.lookup g rows) (old g) (others g apart))
    ])
  where
    moved :
        (o : Option Candidate)
        → IsCountedRow g users o
        → count_if (is_user_of g) users' ≡ count_if (is_user_of g) users
        → IsCountedRow g users' o
    moved none h e = e ∙ h
    moved (some d) h e = (h.0 ∙ sym e, h.1)

-- A row changes in its other columns.
change-IsCounted :
    (f : String) (c d : Candidate) (rows : Dict Candidate) (users : List (String × String))
    → Maps.lookup f rows ≡ some d
    → c.distinct_users ≡ d.distinct_users
    → c.fingerprint ≡ d.fingerprint
    → ((g : String) → IsCountedRow g users (Maps.lookup g rows))
    → (g : String) → IsCountedRow g users (Maps.lookup g (Maps.put f c rows))
change-IsCounted f c d rows users e n k old =
    let row : IsCountedRow f users (some d) = subst (IsCountedRow f users) e (old f) in
    put-IsCounted f c rows users users (n ∙ row.0, k ∙ row.1) old (λ g apart. refl)

add_user-others :
    (f d g : String) (us : List (String × String))
    → str_eq f g ≡ false
    → count_if (is_user_of g) (add_user f d us) ≡ count_if (is_user_of g) us
unfolding count_if
add_user-others f d g us apart =
    if_holds
      (λ (vs : List (String × String)). count_if (is_user_of g) vs ≡ count_if (is_user_of g) us)
      (has_user (f, d) us) (λ _. refl)
      (λ _. ground (arith, count_if-append (is_user_of g) us ((f, d) ∷ []), apart))

merged-IsCountedRow :
    (c : Candidate) (users : List (String × String)) (o : Option Candidate)
    → IsCountedRow c.fingerprint users o
    → IsCountedRow c.fingerprint users (some (merged c o))
merged-IsCountedRow c users none h = (sym h, refl)
merged-IsCountedRow c users (some old) h = h

upsert-IsCounted :
    (commits : Bool) (c : Candidate) (digest : String) (t : Tables)
    → IsCounted t
    → IsCounted (upsert_cyber_rule_candidate commits c digest t).1
unfolding upsert_cyber_rule_candidate upsert_candidate IsCounted
upsert-IsCounted false c digest t h = h
upsert-IsCounted true c digest t h =
    let f = c.fingerprint in
    let stored = merged c (Maps.lookup f t.candidates) in
    let row = merged-IsCountedRow c t.users (Maps.lookup f t.candidates) (h f) in
    let users = add_user f digest t.users in
    let counted : Candidate = record stored { distinct_users = count_if (is_user_of f) users } in
    if_holds
      (λ (x : Candidate × Tables).
        (g : String) → IsCountedRow g x.1.users (Maps.lookup g x.1.candidates))
      (str_eq digest "") {x = (stored, record t { candidates = Maps.put f stored t.candidates })}
      {y = (counted, record t { candidates = Maps.put f counted t.candidates; users = users })}
      (λ _. put-IsCounted f stored t.candidates t.users t.users row h (λ g apart. refl))
      (λ _.
        put-IsCounted f counted t.candidates t.users users (refl, row.1) h
          (λ g apart. add_user-others f digest g t.users apart))

with_status-IsCounted :
    (s : Status) (f : String) (o : Option Candidate) (rows : Dict Candidate)
    (users : List (String × String))
    → Maps.lookup f rows ≡ o
    → ((g : String) → IsCountedRow g users (Maps.lookup g rows))
    → (g : String) → IsCountedRow g users (Maps.lookup g (with_status s o rows f).1)
with_status-IsCounted s f none rows users e h = h
with_status-IsCounted s f (some c) rows users e h =
    if_holds
      (λ (x : Bool × Dict Candidate). (g : String) → IsCountedRow g users (Maps.lookup g x.1))
      (is_promoted c.status) {x = (false, rows)}
      {y = (true, Maps.put f (record c { status = s }) rows)} (λ _. h)
      (λ _. change-IsCounted f (record c { status = s }) c rows users e refl refl h)

set_status-IsCounted :
    (f : String) (s : Status) (t : Tables)
    → IsCounted t
    → IsCounted (set_cyber_rule_candidate_status f s t).1
unfolding set_cyber_rule_candidate_status IsCounted
set_status-IsCounted f promoted t h = h
set_status-IsCounted f candidate t h =
    with_status-IsCounted candidate f _ t.candidates t.users refl h
set_status-IsCounted f shadow t h = with_status-IsCounted shadow f _ t.candidates t.users refl h
set_status-IsCounted f rejected t h = with_status-IsCounted rejected f _ t.candidates t.users refl h

mark_promoted-IsCounted :
    (o : Option Candidate) (f : String) (rows : Dict Candidate) (users : List (String × String))
    → Maps.lookup f rows ≡ o
    → ((g : String) → IsCountedRow g users (Maps.lookup g rows))
    → (g : String) → IsCountedRow g users (Maps.lookup g (mark_promoted o f rows))
mark_promoted-IsCounted none f rows users e h = h
mark_promoted-IsCounted (some c) f rows users e h =
    change-IsCounted f (record c { status = promoted }) c rows users e refl refl h

promote-IsCounted :
    (unit : ℕ) (commits auto_block : Bool) (c : Candidate) (t : Tables)
    → IsCounted t
    → IsCounted (promote_cyber_rule_candidate unit commits auto_block c t)
unfolding promote_cyber_rule_candidate IsCounted
promote-IsCounted unit false auto_block c t h = h
promote-IsCounted unit true auto_block c t h =
    mark_promoted-IsCounted _ c.fingerprint t.candidates t.users refl h

approve-IsCounted :
    (f : String) (action : Verdict) (valid commits : Bool) (t : Tables)
    → IsCounted t
    → IsCounted (promote_cyber_rule_candidate_manual f action valid commits t).1
unfolding promote_cyber_rule_candidate_manual IsCounted
approve-IsCounted f action valid commits t h = by_row (Maps.lookup f t.candidates) refl
  where
    by_row :
        (o : Option Candidate)
        → Maps.lookup f t.candidates ≡ o
        → (g : String)
        → IsCountedRow g
            (approve_row action valid commits o t).1.users
            (Maps.lookup g (approve_row action valid commits o t).1.candidates)
    by_row none e = h
    by_row (some c) e =
        let row : IsCountedRow f t.users (some c) = subst (IsCountedRow f t.users) e (h f) in
        if_holds
          (λ (x : Bool × Tables).
            (g : String) → IsCountedRow g x.1.users (Maps.lookup g x.1.candidates))
          (is_open c.status && valid && is_absent (Maps.lookup c.proposed_code t.rules) && commits)
          (λ _.
            change-IsCounted c.fingerprint (record c { status = promoted }) c t.candidates t.users
              (ap (λ (k : String). Maps.lookup k t.candidates) row.1 ∙ e) refl refl h)
          (λ _. h)

process-IsCounted :
    (unit : ℕ) (policy : AdaptiveRulePolicy) (l : Option Learned) (r : Reply) (t : Tables)
    → IsCounted t
    → IsCounted (process_adaptive_failure unit policy l r t)
unfolding process_adaptive_failure
process-IsCounted unit policy none r t h = h
process-IsCounted unit policy (some l) r t h =
    let u = upsert_cyber_rule_candidate r.upsert_commits l.proposal l.user_digest t in
    if_holds IsCounted _ {x = promote_if_ripe unit r u.0 u.1} {y = t}
      (λ _. ripe u.0 u.1 (upsert-IsCounted r.upsert_commits l.proposal l.user_digest t h)) (λ _. h)
  where
    ripe :
        (o : Option Candidate) (u : Tables) → IsCounted u → IsCounted (promote_if_ripe unit r o u)
    ripe none u k = k
    ripe (some c) u k =
        if_holds IsCounted (is_ripe r.later_policy c)
          (λ _. promote-IsCounted unit r.promote_commits r.later_policy.auto_block c u k) (λ _. k)

-- A user of a candidate is stored once.
abbrev pub is_pair : String → String → String × String → Bool
is_pair f d (g, e) = str_eq f g && str_eq d e

unfoldable pub IsDistinct : List (String × String) → Type 0
IsDistinct users = (f d : String) → count_if (is_pair f d) users ≤ 1

has_user-count :
    (f d : String) (us : List (String × String))
    → has_user (f, d) us ≡ false
    → count_if (is_pair f d) us ≡ 0
unfolding count_if
has_user-count f d [] h = refl
has_user-count f d ((g, e) ∷ us) h = ground (arith, h, has_user-count f d us (ground (arith, h)))

-- The pair that is appended, counted by any pair.
one_more :
    (f d g e : String) (us : List (String × String))
    → has_user (f, d) us ≡ false
    → count_if (is_pair g e) us ≤ 1
    → count_if (is_pair g e) (us ++ ((f, d) ∷ [])) ≤ 1
unfolding count_if
one_more f d g e us new le = elim (Bool-cases (is_pair g e (f, d))) [
  | inr apart ↦ ground (arith, count_if-append (is_pair g e) us ((f, d) ∷ []), apart, le)
  | inl same ↦
      let first : g ≡ f = (eq_iff g f).0 (ground (arith, same)) in
      let second : e ≡ d = (eq_iff e d).0 (ground (arith, same)) in
      let none_yet : count_if (is_pair g e) us ≡ 0 =
        rw (first, second) (has_user-count f d us new) in
      ground (arith, count_if-append (is_pair g e) us ((f, d) ∷ []), none_yet)
]

add_user-IsDistinct :
    (f d : String) (us : List (String × String)) → IsDistinct us → IsDistinct (add_user f d us)
unfolding IsDistinct
add_user-IsDistinct f d us h =
    if_holds (λ (vs : List (String × String)). (g e : String) → count_if (is_pair g e) vs ≤ 1)
      (has_user (f, d) us) (λ _. h) (λ new g e. one_more f d g e us new (h g e))

upsert-IsDistinct :
    (commits : Bool) (c : Candidate) (digest : String) (t : Tables)
    → IsDistinct t.users
    → IsDistinct (upsert_cyber_rule_candidate commits c digest t).1.users
unfolding upsert_cyber_rule_candidate upsert_candidate
upsert-IsDistinct false c digest t h = h
upsert-IsDistinct true c digest t h =
    if_holds (λ (x : Candidate × Tables). IsDistinct x.1.users) (str_eq digest "") (λ _. h)
      (λ _. add_user-IsDistinct c.fingerprint digest t.users h)

promote_if_ripe-users :
    (unit : ℕ) (r : Reply) (o : Option Candidate) (t : Tables)
    → (promote_if_ripe unit r o t).users ≡ t.users
unfolding promote_cyber_rule_candidate
promote_if_ripe-users unit r none t = refl
promote_if_ripe-users unit r (some c) t =
    if_holds (λ (x : Tables). x.users ≡ t.users) (is_ripe r.later_policy c)
      (λ _. if_holds (λ (x : Tables). x.users ≡ t.users) r.promote_commits (λ _. refl) (λ _. refl))
      (λ _. refl)

process-IsDistinct :
    (unit : ℕ) (policy : AdaptiveRulePolicy) (l : Option Learned) (r : Reply) (t : Tables)
    → IsDistinct t.users
    → IsDistinct (process_adaptive_failure unit policy l r t).users
unfolding process_adaptive_failure
process-IsDistinct unit policy none r t h = h
process-IsDistinct unit policy (some l) r t h =
    let u = upsert_cyber_rule_candidate r.upsert_commits l.proposal l.user_digest t in
    if_holds (λ (x : Tables). IsDistinct x.users) _ {x = promote_if_ripe unit r u.0 u.1} {y = t}
      (λ _.
        subst IsDistinct (sym (promote_if_ripe-users unit r u.0 u.1))
          (upsert-IsDistinct r.upsert_commits l.proposal l.user_digest t h))
      (λ _. h)

set_status-users :
    (f : String) (s : Status) (t : Tables)
    → (set_cyber_rule_candidate_status f s t).1.users ≡ t.users
unfolding set_cyber_rule_candidate_status
set_status-users f promoted t = refl
set_status-users f candidate t = refl
set_status-users f shadow t = refl
set_status-users f rejected t = refl

approve_row-users :
    (action : Verdict) (valid commits : Bool) (o : Option Candidate) (t : Tables)
    → (approve_row action valid commits o t).1.users ≡ t.users
approve_row-users action valid commits none t = refl
approve_row-users action valid commits (some c) t =
    if_holds (λ (x : Bool × Tables). x.1.users ≡ t.users) _ (λ _. refl) (λ _. refl)

approve-users :
    (f : String) (action : Verdict) (valid commits : Bool) (t : Tables)
    → (promote_cyber_rule_candidate_manual f action valid commits t).1.users ≡ t.users
unfolding promote_cyber_rule_candidate_manual
approve-users f action valid commits t =
    approve_row-users action valid commits (Maps.lookup f t.candidates) t

-- Whatever samples arrive and whatever administrators do, and whichever transactions fail, tables in which no user of a
-- candidate is stored twice, and the count of each candidate is the number of the users that are stored for it, stay so:
-- the count that a candidate is promoted by is of distinct users.
pub run-IsCounted :
    (unit : ℕ) (ops : List Op) (t : Tables)
    → IsCounted t
    → IsDistinct t.users
    → IsCounted (run unit ops t) × IsDistinct (run unit ops t).users
unfolding run step
run-IsCounted unit [] t h d = (h, d)
run-IsCounted unit (learn policy l r ∷ ops) t h d =
    run-IsCounted unit ops _ (process-IsCounted unit policy l r t h)
      (process-IsDistinct unit policy l r t d)
run-IsCounted unit (set_status f s ∷ ops) t h d =
    run-IsCounted unit ops _ (set_status-IsCounted f s t h)
      (subst IsDistinct (sym (set_status-users f s t)) d)
run-IsCounted unit (approve f action valid commits ∷ ops) t h d =
    run-IsCounted unit ops _ (approve-IsCounted f action valid commits t h)
      (subst IsDistinct (sym (approve-users f action valid commits t)) d)
