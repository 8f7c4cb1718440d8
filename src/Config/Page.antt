-- ===== src/Config/Page.antt =====
-- The text of the configuration page.
use webstore.Base.{
  ℕ, ◌+◌, ◌-◌, ◌^◌, ◌≤◌, ◌<◌, ◌≡◌, refl, Bool, true, false, [], ◌∷◌, ◌++◌, arith, if◌then◌else◌,
  length, take, take-length, length-append, append_assoc, append-nil, ap, ◌∙◌, Bool-cases, inl, inr,
  sym,
}
use webstore.Base.Int.{ℤ, pos_part, neg_part}
use webstore.Base.Bytes.{Bytes, text}
use webstore.Base.Decimal.{decimal_ℤ, length-decimal_ℤ}
use webstore.Redis.{Redis}
use webstore.Server.{WsRt, State, done}
use webstore.Config.{
  Wanted, wanted, any_wanted, Printed, snprintf_at, print_if, print_page, maxuploadsize_line,
  expiration_line, immutable_line, bar_line, nodecfg,
}

-- the value of a C `long`
abbrev IsLong : ℤ → Type 0
IsLong i = (pos_part i < 2 ^ 63) × (neg_part i ≤ 2 ^ 63)

pub record FitsLong (rt : WsRt) : Type 0 where
  pub max_post_data_size : IsLong rt.max_post_data_size
  pub expiration : IsLong rt.expiration
  pub immutable : IsLong rt.immutable
  pub bar : IsLong rt.bar

-- a line that is wanted
abbrev line_if : Bool → Bytes → Bytes
line_if b line = if b then line else []

-- The page as it should be: the wanted lines, whole, in their order.
abbrev pub lines : Wanted → WsRt → Bytes
lines c rt =
    line_if c.maxuploadsize (maxuploadsize_line rt)
    ++ (line_if c.expiration (expiration_line rt)
        ++ (line_if c.immutable (immutable_line rt) ++ line_if c.bar (bar_line rt)))

-- printing a line that fits
print_if-fits :
    (b : Bool) (line : Bytes) (p : Printed)
    → p.n ≡ length p.page
    → p.n + length line ≤ 511
    → print_if b line p
      ≡ record { page = p.page ++ line_if b line; n = length (p.page ++ line_if b line) }
unfolding print_if snprintf_at
print_if-fits true line p e h i = record {
  page = p.page ++ take-length (512 - 1 - p.n) line (omega arith) i;
  n = total i;
}
  where
    total : p.n + length line ≡ length (p.page ++ line)
    total = omega (arith, length-append {0} p.page line)
print_if-fits false line p e h i = record {
  page = sym (append-nil p.page) i;
  n = (e ∙ ap length (sym (append-nil p.page))) i;
}

whole : Bytes → Printed
whole page = record { page = page; n = length page }

step :
    (b : Bool) (line page : Bytes)
    → length page + length line ≤ 511
    → print_if b line (whole page) ≡ whole (page ++ line_if b line)
unfolding whole
step b line page h = print_if-fits b line (whole page) refl h

length-line_if : (b : Bool) (line : Bytes) → length (line_if b line) ≤ length line
length-line_if true line = omega arith
length-line_if false line = omega arith

module _ (rt : WsRt) (f : FitsLong rt) where
  length-maxuploadsize_line : length (maxuploadsize_line rt) ≤ 50
  unfolding maxuploadsize_line text
  length-maxuploadsize_line = omega (
    arith,
    length-decimal_ℤ rt.max_post_data_size f.max_post_data_size.0 f.max_post_data_size.1,
    length-append {0} (decimal_ℤ rt.max_post_data_size) (text " bytes" ++ 10 ∷ []),
  )

  length-expiration_line : length (expiration_line rt) ≤ 50
  unfolding expiration_line text
  length-expiration_line = omega (
    arith,
    length-decimal_ℤ rt.expiration f.expiration.0 f.expiration.1,
    length-append {0} (decimal_ℤ rt.expiration) (text " seconds" ++ 10 ∷ []),
  )

  length-immutable_line : length (immutable_line rt) ≤ 50
  unfolding immutable_line text
  length-immutable_line = omega (
    arith,
    length-decimal_ℤ rt.immutable f.immutable.0 f.immutable.1,
    length-append {0} (decimal_ℤ rt.immutable) (10 ∷ []),
  )

  length-bar_line : length (bar_line rt) ≤ 50
  unfolding bar_line text
  length-bar_line = omega (
    arith,
    length-decimal_ℤ rt.bar f.bar.0 f.bar.1,
    length-append {0} (decimal_ℤ rt.bar) (10 ∷ []),
  )

  -- Whatever options are asked for, the page is the wanted lines, whole and in order: with values of C
  -- `long`s the 512 bytes of the buffer are enough, and no write is cut.
  print_page-whole : (c : Wanted) → (print_page c rt).page ≡ lines c rt
  unfolding print_page whole
  print_page-whole c =
      rw
        (
          step c.maxuploadsize (maxuploadsize_line rt) []
              (omega (arith, length-maxuploadsize_line)),
          step c.expiration (expiration_line rt) a (omega (arith, length-expiration_line, bound_a)),
          step c.immutable (immutable_line rt) (a ++ b)
              (omega (arith, length-immutable_line, bound_a, bound_b, length-append {0} a b)),
          step c.bar (bar_line rt) ((a ++ b) ++ d) (
              omega (
                arith,
                length-bar_line,
                bound_a,
                bound_b,
                bound_d,
                length-append {0} a b,
                length-append {0} (a ++ b) d,
              )),
        )
        (append_assoc (a ++ b) d _ ∙ append_assoc a b _)
    where
      a : Bytes
      a = line_if c.maxuploadsize (maxuploadsize_line rt)

      b : Bytes
      b = line_if c.expiration (expiration_line rt)

      d : Bytes
      d = line_if c.immutable (immutable_line rt)

      bound_a : length a ≤ 50
      bound_a =
          omega (
            arith,
            length-line_if c.maxuploadsize (maxuploadsize_line rt),
            length-maxuploadsize_line,
          )

      bound_b : length b ≤ 50
      bound_b =
          omega (arith, length-line_if c.expiration (expiration_line rt), length-expiration_line)

      bound_d : length d ≤ 50
      bound_d = omega (arith, length-line_if c.immutable (immutable_line rt), length-immutable_line)

  -- To a GET, with no shutdown under way, the configuration node says 404 to an option that it does
  -- not know; to one that it knows, or to "all", it gives the wanted lines whole and in order, with
  -- 200, if the four values are within the range of a C long. Nothing else of the state changes.
  pub nodecfg_page :
      {R : Redis} (url : Bytes) (urllen : ℕ) (s : State R)
      → s.srv.shutdown ≡ false
      → s.ri.method_type ≡ 1
      → nodecfg url urllen rt s ≡ (
          if any_wanted (wanted url)
          then done (lines (wanted url) rt, record s { ri = record s.ri { return_code = 200 } })
          else done (
            take 511 (text "Unknown Config Option: " ++ (url ++ 10 ∷ [])),
            record s { ri = record s.ri { return_code = 404 } },
          ))
  unfolding nodecfg
  nodecfg_page url urllen s up get = elim (Bool-cases (any_wanted (wanted url))) [
    | inl known ↦ rw (up, get, known, print_page-whole (wanted url))
    | inr unknown ↦ rw (up, get, unknown)
  ]
