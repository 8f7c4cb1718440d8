-- ===== src/Main/Options.antt =====
-- What the options are worth once they have been accepted.
use webstore.Base.{
  ◌≡◌, Bool, true, false, none, some, List, arith, ltb, ◌==◌, if◌then◌else◌, not, ◌&&◌, ◌||◌,
  Option-cases, Bool-cases, inl, inr, subst, ap,
}
use webstore.Base.Int.{pos, ltb_ℤ}
use webstore.Base.Bytes.{Bytes}
use webstore.Server.{Outcome, done, exits, hangs}
use webstore.Start.{SrvOpts}
use webstore.Main.{
  Got, Globals, parse_args, check_options, check_read, read_options, initial, start_options, is_set,
}

-- What a server can start with: a Redis to talk to, by TCP only with a port, a port to listen on, a
-- certificate exactly with a key, and room for the shortest upload.
abbrev pub usable : Globals → Bool
usable g =
    (is_set g.rsock || is_set g.rip)
    && (not (is_set g.rip) || not (g.rport == 0))
    && not (g.so.http_port == 0)
    && (if is_set g.so.certfile then is_set g.so.keyfile else not (is_set g.so.keyfile))
    && not (ltb_ℤ g.so.max_post_data_size (pos 6))

-- The six checks together let exactly the usable options through.
check_options-usable : (g : Globals) → check_options g ≡ (if usable g then done g else exits 1)
unfolding check_options
check_options-usable g = ground arith

starts : (g : Globals) → usable g ≡ true → (o : SrvOpts) × (start_options g ≡ some o)
unfolding start_options
starts g h = elim (Option-cases g.rsock) [
  | inr (path, e) ↦ (record g.so { rdest = path }, rw e)
  | inl e ↦ elim (Option-cases g.rip) [
    | inr (ip, f) ↦ (record g.so { rdest = ip; rport = g.rport }, rw (e, f, port f))
    | inl f ↦ absurd (neither e f)
  ]
]
  where
    port : {ip : Bytes} → g.rip ≡ some ip → ltb 0 g.rport ≡ true
    port f = ground arith

    neither : g.rsock ≡ none → g.rip ≡ none → ⊥
    neither e f = ground arith

-- The end of parse_args, by the result of the loop.
checked : (o : Outcome Globals) (h : Globals) → check_read o ≡ done h → usable h ≡ true
unfolding check_read
checked (done g) h e = elim (Bool-cases (usable g)) [
  | inl good ↦ subst (λ x. usable x ≡ true) (same good) good
  | inr bad ↦ absurd (no_result bad)
]
  where
    same : usable g ≡ true → g ≡ h
    same good =
        cc (check_options-usable g, e, ap (λ (b : Bool). if b then done g else exits 1) good)

    no_result : usable g ≡ false → ⊥
    no_result bad =
        cc (check_options-usable g, e, ap (λ (b : Bool). if b then done g else exits 1) bad)
checked (exits n) h e = absurd (cc)
checked hangs h e = absurd (cc)

-- Whatever the command line is, options that are accepted have a Redis to talk to, by TCP only with
-- a port, a port to listen on, a certificate exactly with a key, and a limit of at least six bytes;
-- webstore_start is then called, and the branch "webstore_start() failed!" is not reached.
pub parse_args-usable :
    (got : List Got) (h : Globals)
    → parse_args got ≡ done h
    → (usable h ≡ true) × ((o : SrvOpts) × (start_options h ≡ some o))
unfolding parse_args
parse_args-usable got h e = let u = checked (read_options got initial) h e in (u, starts h u)
