-- ===== src/Main/Shutdown.antt =====
-- What the interrupts leave while the service stops (webstore_stop and log_close, src/webstore_uhd.c and
-- src/webstore_log.c).
use webstore.Base.{
  ◌+◌, leb, ◌≡◌, refl, ap, sym, ◌∙◌, Bool, true, false, Option, none, some, List, [], ◌∷◌, ◌++◌,
  append_assoc, append-nil, Bool-cases, inl, inr,
}
use webstore.Base.Bytes.{text}
use webstore.Redis.{Redis}
use webstore.Rai.{Rai}
use webstore.Searest.{Sri}
use webstore.Server.{Server, LogLine, Returns, log_add_to, append_line, level_str, wslog_info}
use webstore.Main.{sighup, sigint, sigterm, sigquit, sigpipe, other_signal, sig_handler}
use webstore.Main.Program.{Prog, signal, log_flush, on_alarm, handle}
use webstore.Main.Stop.{
  Interrupt, interrupt, tick, asks_log, has_log, outside_log, inside_log, log_shutdown,
}
use webstore.Main.Steady.{Steady}

-- signals that neither log nor flush
abbrev pub calm : List Interrupt → Bool
calm [] = true
calm (interrupt sigpipe ∷ xs) = false
calm (interrupt _ ∷ xs) = calm xs
calm (tick ∷ xs) = false

-- the lines of the broken pipes
abbrev pub pipe_lines : List Interrupt → List LogLine
pipe_lines [] = []
pipe_lines (interrupt sigpipe ∷ xs) =
    record { level = text "ERR"; message = text "SIGPIPE" } ∷ pipe_lines xs
pipe_lines (_ ∷ xs) = pipe_lines xs

abbrev pub piped : List Interrupt → Option (List LogLine) → Option (List LogLine)
piped xs none = none
piped xs (some lines) = some (lines ++ pipe_lines xs)

-- the program with this instance, context and log, steady
pub record Rests {R : Redis} (ws : Sri R) (rc : Rai) (log : Option (List LogLine)) (p : Prog R)
    : Type 0 where
  pub ws_eq : p.service.ws ≡ ws
  pub rc_eq : p.service.rc ≡ rc
  pub log_eq : p.service.srv.log ≡ log
  pub steady : Steady p

module _ {R : Redis} (ws : Sri R) (rc : Rai) where
  piped-none : (l : Option (List LogLine)) → piped [] l ≡ l
  piped-none none = refl
  piped-none (some lines) = ap some (append-nil lines)

  piped-pipe :
      (xs : List Interrupt) (l : Option (List LogLine))
      → piped xs (append_line l (some (text "ERR")) (text "SIGPIPE"))
        ≡ piped (interrupt sigpipe ∷ xs) l
  unfolding append_line
  piped-pipe xs none = refl
  piped-pipe xs (some lines) = ap some (append_assoc lines (_ ∷ []) (pipe_lines xs))

  -- a signal other than SIGPIPE
  other-Rests :
      (srv : Server R) (p : Prog R) (log : Option (List LogLine))
      → srv.locked ≡ p.service.srv.locked
      → srv.log ≡ p.service.srv.log
      → Rests ws rc log p
      → Rests ws rc log (record p { service = record p.service { srv = srv } })
  other-Rests srv p log locked same r = record {
    ws_eq = r.ws_eq;
    rc_eq = r.rc_eq;
    log_eq = same ∙ r.log_eq;
    steady = record { free = locked ∙ r.steady.free; goes_on = r.steady.goes_on };
  }

  alarm-Rests :
      (p : Prog R) (log : Option (List LogLine)) → Rests ws rc log p → Rests ws rc log (on_alarm p)
  unfolding on_alarm log_flush
  alarm-Rests p log r = elim (Bool-cases (leb 4 (p.timer.ticks + 1))) [
    | inl full ↦ rw full (record {
      ws_eq = r.ws_eq;
      rc_eq = r.rc_eq;
      log_eq = r.log_eq;
      steady = record { free = r.steady.free; goes_on = r.steady.goes_on };
    })
    | inr rest ↦ rw rest (record {
      ws_eq = r.ws_eq;
      rc_eq = r.rc_eq;
      log_eq = r.log_eq;
      steady = record { free = r.steady.free; goes_on = r.steady.goes_on };
    })
  ]

  pipe-Rests :
      (p : Prog R) (log : Option (List LogLine))
      → Rests ws rc log p
      → Rests ws rc
          (append_line log (some (text "ERR")) (text "SIGPIPE"))
          (handle (signal sigpipe) p)
  unfolding handle sig_handler log_add_to level_str
  pipe-Rests p log r = record {
    ws_eq = r.ws_eq;
    rc_eq = r.rc_eq;
    log_eq = ap (λ l. append_line l (some (text "ERR")) (text "SIGPIPE")) r.log_eq;
    steady = record { free = r.steady.free; goes_on = r.steady.goes_on };
  }

  relog :
      {log log' : Option (List LogLine)} {p : Prog R}
      → log ≡ log'
      → Rests ws rc log p
      → Rests ws rc log' p
  relog e r = record { ws_eq = r.ws_eq; rc_eq = r.rc_eq; log_eq = r.log_eq ∙ e; steady = r.steady }

  piped-skip :
      (x : Interrupt) (xs : List Interrupt) (l : Option (List LogLine))
      → pipe_lines xs ≡ pipe_lines (x ∷ xs)
      → piped xs l ≡ piped (x ∷ xs) l
  piped-skip x xs none e = refl
  piped-skip x xs (some lines) e = ap (λ rest. some (lines ++ rest)) e

  piped-nothing : (xs : List Interrupt) → piped xs none ≡ none
  piped-nothing xs = refl

  pub outside_log-Rests :
      (xs : List Interrupt) (p : Prog R) (log : Option (List LogLine))
      → Rests ws rc log p
      → Rests ws rc (piped xs log) (outside_log xs p)
  unfolding outside_log handle sig_handler log_add_to level_str
  outside_log-Rests [] p log r = record {
    ws_eq = r.ws_eq;
    rc_eq = r.rc_eq;
    log_eq = r.log_eq ∙ sym (piped-none log);
    steady = r.steady;
  }
  outside_log-Rests (tick ∷ xs) p log r =
      relog (piped-skip tick xs log refl)
        (outside_log-Rests xs (on_alarm p) log (alarm-Rests p log r))
  outside_log-Rests (interrupt sigpipe ∷ xs) p log r =
      relog (piped-pipe xs log) (outside_log-Rests xs _ _ (pipe-Rests p log r))
  outside_log-Rests (interrupt sighup ∷ xs) p log r =
      relog (piped-skip (interrupt sighup) xs log refl)
        (outside_log-Rests xs _ log (other-Rests _ p log refl refl r))
  outside_log-Rests (interrupt sigint ∷ xs) p log r =
      relog (piped-skip (interrupt sigint) xs log refl)
        (outside_log-Rests xs _ log (other-Rests _ p log refl refl r))
  outside_log-Rests (interrupt sigterm ∷ xs) p log r =
      relog (piped-skip (interrupt sigterm) xs log refl)
        (outside_log-Rests xs _ log (other-Rests _ p log refl refl r))
  outside_log-Rests (interrupt sigquit ∷ xs) p log r =
      relog (piped-skip (interrupt sigquit) xs log refl)
        (outside_log-Rests xs _ log (other-Rests _ p log refl refl r))
  outside_log-Rests (interrupt other_signal ∷ xs) p log r =
      relog (piped-skip (interrupt other_signal) xs log refl)
        (outside_log-Rests xs _ log (other-Rests _ p log refl refl r))

  -- calm interrupts inside the mutex: main goes on
  pub inside_log-Rests :
      (xs : List Interrupt) (p : Prog R) (log : Option (List LogLine))
      → calm xs ≡ true
      → Rests ws rc log p
      → Returns (inside_log xs p) (Rests ws rc log)
  unfolding inside_log handle sig_handler asks_log
  inside_log-Rests [] p log quiet r = r
  inside_log-Rests (tick ∷ xs) p log quiet r = absurd (cc)
  inside_log-Rests (interrupt sigpipe ∷ xs) p log quiet r = absurd (cc)
  inside_log-Rests (interrupt sighup ∷ xs) p log quiet r =
      inside_log-Rests xs _ log quiet (other-Rests _ p log refl refl r)
  inside_log-Rests (interrupt sigint ∷ xs) p log quiet r =
      inside_log-Rests xs _ log quiet (other-Rests _ p log refl refl r)
  inside_log-Rests (interrupt sigterm ∷ xs) p log quiet r =
      inside_log-Rests xs _ log quiet (other-Rests _ p log refl refl r)
  inside_log-Rests (interrupt sigquit ∷ xs) p log quiet r =
      inside_log-Rests xs _ log quiet (other-Rests _ p log refl refl r)
  inside_log-Rests (interrupt other_signal ∷ xs) p log quiet r =
      inside_log-Rests xs _ log quiet (other-Rests _ p log refl refl r)

  -- the line on the shutdown is the last one
  pub log_shutdown-Rests :
      (xs : List Interrupt) (p : Prog R) (log : Option (List LogLine))
      → calm xs ≡ true
      → Rests ws rc log p
      → Returns
          (log_shutdown xs p)
          (Rests ws rc (append_line log (level_str wslog_info) (text "webstore shutdown")))
  unfolding log_shutdown has_log log_add_to append_line level_str
  log_shutdown-Rests xs p none quiet r = rw r.log_eq (
      relog (piped-nothing xs) (
        outside_log-Rests xs _ none
          (other-Rests (record p.service.srv { log = none }) p none refl (sym r.log_eq) r)))
  log_shutdown-Rests xs p (some ls) quiet r = rw r.log_eq (
      inside_log-Rests xs _ _ quiet (record {
        ws_eq = r.ws_eq;
        rc_eq = r.rc_eq;
        log_eq = refl;
        steady = record { free = r.steady.free; goes_on = r.steady.goes_on };
      }))
