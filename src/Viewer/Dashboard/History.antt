-- ===== src/Viewer/Dashboard/History.antt =====
-- What the panel of viewer/src/dashboard.ts shows after a history of messages.
use laptop_as_a_second_monit.Common.{
  ℕ, ◌-◌, ◌≡◌, refl, ap, ◌∙◌, Bool, true, false, ◌&&◌, ◌||◌, Option, none, some, List, [], ◌∷◌,
  ◌++◌, Str, codes, str_eq, str_eq_iff, ltb, if◌then◌else◌, All, arith,
}
use laptop_as_a_second_monit.Viewer.Dashboard.{
  Value, null, number, text, other, Metrics, Dashboard, member, is_text, is_truthy, on_connection,
  take, update, run,
}
use laptop_as_a_second_monit.Viewer.Dashboard.Panel.{Numbers, panel, render, recent}

-- A value that is one text is not another.
is_text_other :
    {D : Type 0} (v : Option (Value D)) (s t : Str)
    → str_eq s t ≡ false
    → is_text v s ≡ true
    → is_text v t ≡ false
is_text_other none s t d e = refl
is_text_other (some null) s t d e = refl
is_text_other (some (number x)) s t d e = refl
is_text_other (some (text r)) s t d e = rw ((str_eq_iff r s).0 e) d
is_text_other (some (other b r)) s t d e = refl

module _ {D : Type 0} (is_zero : D → Bool) where
  abbrev pub History : Type 0
  History = List (ℕ × Option (Metrics D))

  abbrev pub has_kind : Str → Metrics D → Bool
  has_kind t m = is_text (member (codes "type") m) t

  abbrev pub resets : Metrics D → Bool
  resets m =
      has_kind (codes "connection-stats") m && is_truthy is_zero (member (codes "resetPeer") m)

  abbrev pub test : (Metrics D → Bool) → Option (Metrics D) → Bool
  test f none = false
  test f (some m) = f m

  -- No message of the history passes the test.
  abbrev pub IsSilent : (Metrics D → Bool) → History → Type 0
  IsSilent f = All (λ e. test f e.1 ≡ false)

  -- A message that brings the host's numbers, or drops them.
  abbrev pub of_host : Metrics D → Bool
  of_host m = has_kind (codes "host-stats") m || resets m

  abbrev pub of_peer : Metrics D → Bool
  of_peer m = has_kind (codes "receiver-stats") m || has_kind (codes "host-stats") m

  -- The last report on a connection in a history, if there is one after a first.
  pub last_report : Metrics D → History → Metrics D
  last_report c [] = c
  last_report c ((now, none) ∷ es) = last_report c es
  last_report c ((now, some m) ∷ es) =
      last_report (if has_kind (codes "connection-stats") m then m else c) es

  update_report :
      (now : ℕ) (m : Metrics D) (d : Dashboard D)
      → (update is_zero now (some m) d).connection
        ≡ (if has_kind (codes "connection-stats") m then m else d.connection)
  unfolding update take on_connection
  update_report now m d = ground arith

  run_report :
      (es : History) (d : Dashboard D) → (run is_zero es d).connection ≡ last_report d.connection es
  unfolding run last_report update
  run_report [] d = refl
  run_report ((now, none) ∷ es) d = run_report es d
  run_report ((now, some m) ∷ es) d =
      run_report es (update is_zero now (some m) d)
      ∙ ap (λ c. last_report c es) (update_report now m d)

  run-append :
      (es fs : History) (d : Dashboard D)
      → run is_zero (es ++ fs) d ≡ run is_zero fs (run is_zero es d)
  unfolding run
  run-append [] fs d = refl
  run-append ((now, v) ∷ es) fs d = run-append es fs (update is_zero now v d)

  update_silent :
      (now : ℕ) (v : Option (Metrics D)) (d : Dashboard D)
      → test of_host v ≡ false
      → let t = update is_zero now v d in (t.host ≡ d.host) × (t.host_at ≡ d.host_at)
  unfolding update take on_connection
  update_silent now none d h = (refl, refl)
  update_silent now (some m) d h = ground arith

  run_silent :
      (es : History) (d : Dashboard D)
      → IsSilent of_host es
      → let t = run is_zero es d in (t.host ≡ d.host) × (t.host_at ≡ d.host_at)
  unfolding run
  run_silent [] d h = (refl, refl)
  run_silent ((now, v) ∷ es) d (q, h) =
      ground (arith, update_silent now v d q, run_silent es (update is_zero now v d) h)

  update_kept :
      (now : ℕ) (v : Option (Metrics D)) (d : Dashboard D)
      → test of_peer v ≡ false
      → d.receiver ≡ []
      → d.host ≡ []
      → let t = update is_zero now v d in (t.receiver ≡ []) × (t.host ≡ [])
  unfolding update take on_connection
  update_kept now none d h a b = (a, b)
  update_kept now (some m) d h a b = ground arith

  run_kept :
      (es : History) (d : Dashboard D)
      → IsSilent of_peer es
      → d.receiver ≡ []
      → d.host ≡ []
      → let t = run is_zero es d in (t.receiver ≡ []) × (t.host ≡ [])
  unfolding run
  run_kept [] d h a b = (a, b)
  run_kept ((now, v) ∷ es) d (q, h) a b =
      let (a', b') = update_kept now v d q a b in run_kept es (update is_zero now v d) h a' b'

  take_host :
      (now : ℕ) (m : Metrics D) (d : Dashboard D)
      → has_kind (codes "host-stats") m ≡ true
      → let t = take is_zero now m d in (t.host ≡ m) × (t.host_at ≡ now)
  unfolding take str_eq
  take_host now m d h =
      let kind = member (codes "type") m in
      let a = is_text_other kind (codes "host-stats") (codes "connection-stats") refl h in
      let b = is_text_other kind (codes "host-stats") (codes "receiver-stats") refl h in
      rw (a, b, h) (refl, refl)

  take_reset :
      (now : ℕ) (m : Metrics D) (d : Dashboard D)
      → resets m ≡ true
      → let t = take is_zero now m d in (t.receiver ≡ []) × (t.host ≡ []) × (t.connection ≡ m)
  unfolding take on_connection
  take_reset now m d h = ground arith

  run_from :
      (es fs : History) (now : ℕ) (m : Metrics D) (d : Dashboard D)
      → run is_zero (es ++ (now, some m) ∷ fs) d
        ≡ run is_zero fs (take is_zero now m (run is_zero es d))
  unfolding run update
  run_from es fs now m d = run-append es ((now, some m) ∷ fs) d

module _ {D : Type 0} (o : Numbers D) (upper : ℕ → Str) where
  render_as :
      (now : ℕ) (s : Dashboard D) {c r h : Metrics D}
      → s.connection ≡ c
      → s.receiver ≡ r
      → recent o now s ≡ h
      → render o upper now s ≡ panel o upper c r h
  unfolding render
  render_as now s g e f = λ i. panel o upper (g i) (e i) (f i)

  -- The numbers of the host are those of its last message since the last new connection, for three and a half
  -- seconds; after that none is shown.
  pub render_host :
      (before after : History o.is_zero) (sent now : ℕ) (m : Metrics D) (d : Dashboard D)
      → has_kind o.is_zero (codes "host-stats") m ≡ true
      → IsSilent o.is_zero (of_host o.is_zero) after
      → let s = run o.is_zero (before ++ (sent, some m) ∷ after) d in
        render o upper now s
        ≡ panel o upper s.connection s.receiver (if ltb (now - sent) 3500 then m else [])
  render_host before after sent now m d h q =
      let t = take o.is_zero sent m (run o.is_zero before d) in
      let (host, at) = take_host o.is_zero sent m (run o.is_zero before d) h in
      let (kept, kept_at) = run_silent o.is_zero after t q in
      let whole = run_from o.is_zero before after sent m d in
      render_as now _ refl refl
        (cc (ap (λ (s : Dashboard D). s.host) whole, ap (λ (s : Dashboard D). s.host_at) whole))

  -- Once a connection is reported as new, and until there are statistics of a receiver or a host, nothing
  -- from before is shown: the panel is that of the last report on a connection, from this one on, alone.
  pub render_reset :
      (before after : History o.is_zero) (sent now : ℕ) (m : Metrics D) (d : Dashboard D)
      → resets o.is_zero m ≡ true
      → IsSilent o.is_zero (of_peer o.is_zero) after
      → let s = run o.is_zero (before ++ (sent, some m) ∷ after) d in
        render o upper now s ≡ panel o upper (last_report o.is_zero m after) [] []
  render_reset before after sent now m d h q =
      let t = take o.is_zero sent m (run o.is_zero before d) in
      let (receiver, host, connection) = take_reset o.is_zero sent m (run o.is_zero before d) h in
      let (kept, gone) = run_kept o.is_zero after t q receiver host in
      let whole = run_from o.is_zero before after sent m d in
      render_as now _
        (ap (λ (s : Dashboard D). s.connection) whole
          ∙ (run_report o.is_zero after t ∙ ap (λ c. last_report o.is_zero c after) connection))
        (ap (λ (s : Dashboard D). s.receiver) whole ∙ kept)
        (ground (arith, ap (λ (s : Dashboard D). s.host) whole))
