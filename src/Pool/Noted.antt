-- ===== src/Pool/Noted.antt =====
-- What the result of a probe changes.
use proxy_switcher.Common.{
  ℕ, zero, suc, ◌+◌, ◌-◌, ◌*◌, true, not, ltb, leb, ◌≡◌, ◌&&◌, ◌||◌, map, inl, inr, refl, sym, ap,
  ◌∙◌, Bool, false, Option, none, some, List, [], ◌∷◌, arith, if◌then◌else◌, get_elem?, modify,
  ◌==◌, Bool-cases, Option-cases,
}
use mathlib.Core.Option
use proxy_switcher.Common.Text.{Text, equal, equal_iff}
use proxy_switcher.Pool.Health.{
  note_working, note_inconclusive, note_failed, is_condemned, score_for, or_old, or_old_some,
  seconds_between, one_more_failure, judge, apply_failed, apply_verdict, apply_health_result,
}
use proxy_switcher.Pool.Indexed.{IsIndexed, index_sound}
use proxy_switcher.Pool.Select.{get}
use proxy_switcher.Address.{IpAddr}
use proxy_switcher.Pool.State.{
  PoolInner, EvictionPolicy, ProbeSchedule, insert_key, modify_at, failed_backoff, id_of,
}
use proxy_switcher.Pool.Index.{keys-modify}
use proxy_switcher.Pool.Types.{
  Floats, ProxyInfo, is_some, Verdict, working, failed, inconclusive, HealthResult,
}

module _ (fl : Floats) where
  open fl use {F, half, mul}

  -- The failures in a row with one more, as far as 32 bits can count.
  abbrev pub failures_then : ProxyInfo F → ℕ
  failures_then p =
      if ltb p.consecutive_failures 0xffffffff then p.consecutive_failures + 1 else 0xffffffff

  -- The record that a result leaves: a success clears the failures and takes what was measured, a
  -- failure counts and halves the score, and a probe that proved nothing only moves the next one.
  abbrev pub noted : HealthResult → ProbeSchedule → ℕ → Verdict → ProxyInfo F → ProxyInfo F
  noted r schedule now working p = record p {
    latency_ms = some r.latency_ms;
    score = score_for fl r.latency_ms;
    last_checked = some now;
    last_success = some now;
    consecutive_failures = 0;
    exit_ip = if is_some r.exit_ip then r.exit_ip else p.exit_ip;
    supports_tunnel = r.tunneled;
    anonymity = or_old r.anonymity p.anonymity;
    next_probe_at = now + schedule.working_interval_secs * 1_000_000_000;
  }
  noted r schedule now inconclusive p = record p {
    last_checked = some now;
    next_probe_at = now + schedule.inconclusive_backoff_secs * 1_000_000_000;
  }
  noted r schedule now failed p = record p {
    last_checked = some now;
    consecutive_failures = failures_then p;
    score = mul p.score half;
    next_probe_at = now + failed_backoff schedule (failures_then p) * 1_000_000_000;
  }

  -- The proxy never worked, and entered the pool as long ago as the policy gives it, or longer.
  abbrev pub is_stale : EvictionPolicy → ℕ → ProxyInfo F → Bool
  is_stale policy now p =
      if is_some p.last_success
      then false
      else leb (policy.unverified_ttl_secs * 1_000_000_000)
          ((now - p.first_seen) + (p.first_seen - now))

  -- Whether a result condemns the proxy, given its record in front of it: only a failure does, where
  -- it completes the failures that the policy bears, or the proxy is stale.
  abbrev pub condemns : EvictionPolicy → ProbeSchedule → ℕ → Verdict → Option (ProxyInfo F) → Bool
  condemns policy schedule now failed (some p) =
      if ltb (failures_then p) policy.max_consecutive_failures then is_stale policy now p else true
  condemns policy schedule now _ _ = false

  noted-working :
      (r : HealthResult) (schedule : ProbeSchedule) (now : ℕ) (p : ProxyInfo F)
      → note_working fl r schedule now p ≡ noted r schedule now working p
  unfolding note_working
  noted-working r schedule now p =
      ap (λ e. record (note_working fl r schedule now p) { exit_ip = e })
        (measured r.exit_ip p.exit_ip)
    where
      measured :
          (new old : Option IpAddr) → or_old_some new old ≡ (if is_some new then new else old)
      measured none old = refl
      measured (some ip) old = refl

  noted-inconclusive :
      (r : HealthResult) (schedule : ProbeSchedule) (now : ℕ) (p : ProxyInfo F)
      → note_inconclusive fl schedule now p ≡ noted r schedule now inconclusive p
  unfolding note_inconclusive
  noted-inconclusive r schedule now p = refl

  pub noted-failed :
      (r : HealthResult) (schedule : ProbeSchedule) (now : ℕ) (p : ProxyInfo F)
      → note_failed fl schedule now p ≡ noted r schedule now failed p
  unfolding note_failed
  noted-failed r schedule now p =
      let counted : one_more_failure fl p.consecutive_failures ≡ failures_then p = ground arith in
      ap
        (λ n. record p {
          last_checked = some now;
          consecutive_failures = n;
          score = mul p.score half;
          next_probe_at = now + failed_backoff schedule n * 1_000_000_000;
        })
        counted

  -- A limit of seconds that are counted down is a limit of the clock's own unit.
  judged :
      (n limit ttl now first : ℕ) (o : Option ℕ)
      → (leb limit n || not (is_some o) && leb ttl (seconds_between now first)) ≡ (
          if ltb n limit
          then (if is_some o
              then false
              else leb (ttl * 1_000_000_000) ((now - first) + (first - now)))
          else true)
  judged n limit ttl now first none = ground arith
  judged n limit ttl now first (some t) = ground arith

  pub condemned-failed :
      (policy : EvictionPolicy) (schedule : ProbeSchedule) (now : ℕ) (p : ProxyInfo F)
      → is_condemned fl policy now (note_failed fl schedule now p)
        ≡ condemns policy schedule now failed (some p)
  unfolding is_condemned note_failed
  condemned-failed policy schedule now p =
      let counted : one_more_failure fl p.consecutive_failures ≡ failures_then p = ground arith in
      ap
        (λ n.
          leb policy.max_consecutive_failures n
          || not (is_some p.last_success)
            && leb policy.unverified_ttl_secs (seconds_between now p.first_seen))
        counted
      ∙ judged (failures_then p) policy.max_consecutive_failures policy.unverified_ttl_secs now
          p.first_seen p.last_success

  get_elem?-modify :
      (ps : List (ProxyInfo F)) (i j : ℕ) (f : ProxyInfo F → ProxyInfo F)
      → get_elem? (modify ps i f) j
        ≡ (if i == j then Option.map f (get_elem? ps j) else get_elem? ps j)
  get_elem?-modify [] i j f = ground arith
  get_elem?-modify (p ∷ ps) zero zero f = refl
  get_elem?-modify (p ∷ ps) zero (suc j) f = ground arith
  get_elem?-modify (p ∷ ps) (suc i) zero f = ground arith
  get_elem?-modify (p ∷ ps) (suc i) (suc j) f = ground (arith, get_elem?-modify ps i j f)

  get-modify_at :
      (i : ℕ) (f : ProxyInfo F → ProxyInfo F) (inner : PoolInner F) (key id : Text)
      → IsIndexed inner
      → inner.index key ≡ some i
      → get fl (modify_at i f inner) id
        ≡ (if equal id key then Option.map f (get fl inner id) else get fl inner id)
  unfolding get
  get-modify_at i f inner key id v k = elim (Option-cases (inner.index id)) [
    | inl e ↦ rw (e, get) (ground arith)
    | inr (j, e) ↦
        let (p, found, same) = index_sound inner key i v k in
        let (q, found', same') = index_sound inner id j v e in
        rw (e, get) (ground (arith, get_elem?-modify inner.proxies i j f, equal_iff id key))
  ]

  map-same :
      (f g : ProxyInfo F → ProxyInfo F) (o : Option (ProxyInfo F))
      → ((p : ProxyInfo F) → f p ≡ g p)
      → Option.map f o ≡ Option.map g o
  map-same f g none h = refl
  map-same f g (some p) h = ap some (h p)

  -- A change that is what a verdict is to leave.
  get-noted :
      (f : ProxyInfo F → ProxyInfo F) (w : Verdict) (i : ℕ) (inner : PoolInner F) (r : HealthResult)
      (schedule : ProbeSchedule) (now : ℕ) (id : Text)
      → ((p : ProxyInfo F) → f p ≡ noted r schedule now w p)
      → IsIndexed inner
      → inner.index r.proxy_id ≡ some i
      → get fl (modify_at i f inner) id ≡ (
          if equal id r.proxy_id
          then Option.map (noted r schedule now w) (get fl inner id)
          else get fl inner id)
  get-noted f w i inner r schedule now id h v e =
      get-modify_at i f inner r.proxy_id id v e
      ∙ ap (λ o. if equal id r.proxy_id then o else get fl inner id)
          (map-same f (noted r schedule now w) (get fl inner id) h)

  -- What a result does to a pool.
  abbrev pub Noted :
      HealthResult
      → EvictionPolicy
      → ProbeSchedule
      → ℕ
      → Verdict
      → PoolInner F
      → PoolInner F × Bool
      → Type 0
  Noted r policy schedule now w inner (after, flagged) =
      ((id : Text)
        → get fl after id ≡ (
            if equal id r.proxy_id
            then Option.map (noted r schedule now w) (get fl inner id)
            else get fl inner id))
      × (map id_of after.proxies ≡ map id_of inner.proxies)
      × (after
          ≡ record inner { proxies = after.proxies; pending_eviction = after.pending_eviction })
      × (flagged ≡ condemns policy schedule now w (get fl inner r.proxy_id))
      × (after.pending_eviction ≡ (
          if flagged then insert_key r.proxy_id inner.pending_eviction else inner.pending_eviction))

  judge_lem :
      (policy : EvictionPolicy) (now : ℕ) (p : ProxyInfo F) (inner : PoolInner F) (id : Text)
      → p.id ≡ id
      → let (after, flagged) = judge fl policy now (some p) inner in
        ((k : Text) → get fl after k ≡ get fl inner k)
        × (after.proxies ≡ inner.proxies)
        × (after
            ≡ record inner { proxies = after.proxies; pending_eviction = after.pending_eviction })
        × (flagged ≡ is_condemned fl policy now p)
        × (after.pending_eviction
            ≡ (if flagged then insert_key id inner.pending_eviction else inner.pending_eviction))
  unfolding judge get
  judge_lem policy now p inner id same = elim (Bool-cases (is_condemned fl policy now p)) [
    | inl e ↦
        rw (e, judge)
          (λ k. refl, refl, refl, refl, ap (λ k. insert_key k inner.pending_eviction) same)
    | inr e ↦ rw (e, judge) (λ k. refl, refl, refl, refl, refl)
  ]

  get_at :
      (inner : PoolInner F) (id : Text) (i : ℕ) (p : ProxyInfo F)
      → inner.index id ≡ some i
      → get_elem? inner.proxies i ≡ some p
      → get fl inner id ≡ some p
  unfolding get
  get_at inner id i p e f = rw (e, get) f

  apply_verdict-Noted :
      (r : HealthResult) (policy : EvictionPolicy) (schedule : ProbeSchedule) (now : ℕ)
      (w : Verdict) (i : ℕ) (inner : PoolInner F)
      → IsIndexed inner
      → inner.index r.proxy_id ≡ some i
      → Noted r policy schedule now w inner (apply_verdict fl w r policy schedule now i inner)
  unfolding apply_verdict apply_failed
  apply_verdict-Noted r policy schedule now working i inner v e = (
    λ id.
        get-noted (note_working fl r schedule now) working i inner r schedule now id
          (noted-working r schedule now) v e,
    keys-modify id_of (note_working fl r schedule now) inner.proxies i (λ p. refl),
    refl,
    refl,
    refl,
  )
  apply_verdict-Noted r policy schedule now inconclusive i inner v e = (
    λ id.
        get-noted (note_inconclusive fl schedule now) inconclusive i inner r schedule now id
          (noted-inconclusive r schedule now) v e,
    keys-modify id_of (note_inconclusive fl schedule now) inner.proxies i (λ p. refl),
    refl,
    refl,
    refl,
  )
  apply_verdict-Noted r policy schedule now failed i inner v e =
      let (p, found, same) = index_sound inner r.proxy_id i v e in
      let after = modify_at i (note_failed fl schedule now) inner in
      let there : get_elem? after.proxies i ≡ some (note_failed fl schedule now p) =
        ground (arith, get_elem?-modify inner.proxies i i (note_failed fl schedule now)) in
      let (g, kept, rest, f, q) =
        judge_lem policy now (note_failed fl schedule now p) after r.proxy_id same in
      rw (there, apply_failed)
        (
          λ id.
              g id
              ∙ get-noted (note_failed fl schedule now) failed i inner r schedule now id
                  (noted-failed r schedule now) v e,
          ap (λ ps. map id_of ps) kept
              ∙ keys-modify id_of (note_failed fl schedule now) inner.proxies i (λ p. refl),
          rest,
          f
              ∙ condemned-failed policy schedule now p
              ∙ sym
                  (ap (condemns policy schedule now failed) (get_at inner r.proxy_id i p e found)),
          q,
        )

  get_missing : (inner : PoolInner F) (id : Text) → inner.index id ≡ none → get fl inner id ≡ none
  unfolding get
  get_missing inner id e = rw (e, get) refl

  condemns-none :
      (policy : EvictionPolicy) (schedule : ProbeSchedule) (now : ℕ) (w : Verdict)
      → condemns policy schedule now w none ≡ false
  condemns-none policy schedule now working = refl
  condemns-none policy schedule now failed = refl
  condemns-none policy schedule now inconclusive = refl

  unknown-Noted :
      (r : HealthResult) (policy : EvictionPolicy) (schedule : ProbeSchedule) (now : ℕ)
      (w : Verdict) (inner : PoolInner F)
      → inner.index r.proxy_id ≡ none
      → Noted r policy schedule now w inner (inner, false)
  unknown-Noted r policy schedule now w inner e =
      let missing = get_missing inner r.proxy_id e in
      (
        λ id. elim (Bool-cases (equal id r.proxy_id)) [
          | inl t ↦
              let lost = ap (get fl inner) ((equal_iff id r.proxy_id).0 t) ∙ missing in
              rw t (lost ∙ sym (ap (Option.map (noted r schedule now w)) lost))
          | inr f ↦ rw f refl
        ],
        refl,
        refl,
        sym (ap (condemns policy schedule now w) missing ∙ condemns-none policy schedule now w),
        refl,
      )

  -- In a pool whose index is right, the result of a probe changes the record of its proxy, if the
  -- pool has it, to the one written out above, and no other record; the ids, their order, the index,
  -- the active place and the condemned ids stay, so that a result of an unknown proxy changes nothing.
  -- The proxy is reported as condemned exactly if it failed and this completes the failures that the
  -- policy bears, or it never worked and its time is over; then it joins the ids that wait for their
  -- eviction, and otherwise these stay as well.
  pub apply_health_result_lem :
      (r : HealthResult) (policy : EvictionPolicy) (schedule : ProbeSchedule) (now : ℕ)
      (inner : PoolInner F)
      → IsIndexed inner
      → Noted r policy schedule now r.verdict inner
          (apply_health_result fl r policy schedule now inner)
  unfolding apply_health_result
  apply_health_result_lem r policy schedule now inner v =
      elim (Option-cases (inner.index r.proxy_id)) [
        | inl e ↦
            rw (e, apply_health_result) (unknown-Noted r policy schedule now r.verdict inner e)
        | inr (i, e) ↦
            rw (e, apply_health_result)
              (apply_verdict-Noted r policy schedule now r.verdict i inner v e)
      ]
