-- ===== src/Main/Over.antt =====
-- What the server program must leave when it ends (src/webstore.c, main).
use webstore.Base.{
  ◌≡◌, refl, ap, subst, ◌∙◌, Bool, true, false, Option, none, some, List, [], ◌∷◌, ◌++◌,
  append_assoc,
}
use webstore.Base.Bytes.{Bytes, text}
use webstore.Base.Decimal.{decimal}
use webstore.Redis.{Redis}
use webstore.Server.{Server, LogLine, done, log_add_to, append_line, level_str, wslog_info}
use webstore.Start.{SrvOpts}
use webstore.Start.Launch.{started_log}
use webstore.Main.{Globals}
use webstore.Main.Program.{Prog, lines_of, open_log}
use webstore.Main.Stop.{Interrupt, Ending, waiting, returned, uses_closed}
use webstore.Main.Shutdown.{pipe_lines, piped}
use webstore.Main.Extends.{Extends}

-- the line of a message at the level of information
abbrev pub info_line : Bytes → LogLine
info_line message = record { level = text "INF"; message = message }

-- What the log must be at the end: it begins with the start and ends with the shutdown, if there is one,
-- but for the pipes that break after that.
abbrev pub LogWhole : SrvOpts → List Interrupt → Option Bytes → Option (List LogLine) → Type 0
LogWhole so leaving none log = log ≡ none
LogWhole so leaving (some logfile) log =
    (more : List LogLine) × (log
      ≡ some (
          (info_line (text "webstore started on port " ++ decimal so.http_port) ∷ more)
          ++ info_line (text "webstore shutdown") ∷ pipe_lines leaving))

-- What the program leaves when it ends: the daemon is stopped, the connection to Redis is closed, and
-- the log is whole and on disk.
pub record IsOver {R : Redis} (g : Globals) (so : SrvOpts) (leaving : List Interrupt) (p : Prog R)
    : Type 0 where
  pub stopped : p.service.ws.running ≡ false
  pub disconnected : (p.service.rc.has_context ≡ false) × (p.service.rc.connected ≡ false)
  pub log_whole : LogWhole so leaving g.logfile p.service.srv.log
  pub on_disk : p.synced ≡ lines_of p.service.srv.log

-- the program has returned with `P`
abbrev pub Over : {R : Redis} → (Prog R → Type 0) → Ending R → Type 0
Over P (waiting p) = ⊥
Over P uses_closed = ⊥
Over P (returned p) = P p

abbrev pub CanOpen : (Bytes → Bool) → Option Bytes → Type 0
CanOpen opens none = Unit
CanOpen opens (some logfile) = opens logfile ≡ true

-- the log when the service has come up
pub opened_log : Option Bytes → Option (List LogLine)
opened_log none = none
opened_log (some logfile) = some []

pub open_log-opened :
    (opens : Bytes → Bool) (logfile : Option Bytes)
    → CanOpen opens logfile
    → open_log opens logfile ≡ done (opened_log logfile)
unfolding open_log opened_log
open_log-opened opens none can = refl
open_log-opened opens (some logfile) can = rw can

pub piped-Extends : (xs : List Interrupt) (l : Option (List LogLine)) → Extends l (piped xs l)
piped-Extends xs none = refl
piped-Extends xs (some lines) = (pipe_lines xs, refl)

pub closing-LogWhole :
    {R : Redis} (so : SrvOpts) (logfile : Option Bytes) (leaving : List Interrupt) (srv : Server R)
    (log : Option (List LogLine))
    → srv.log ≡ opened_log logfile
    → Extends (started_log so srv).log log
    → LogWhole so leaving logfile
        (piped leaving (append_line log (level_str wslog_info) (text "webstore shutdown")))
unfolding started_log opened_log log_add_to append_line level_str
closing-LogWhole so none leaving srv log e more =
    ap (λ l. piped leaving (append_line l (some (text "INF")) (text "webstore shutdown")))
      (subst
        (λ l.
          Extends
            (append_line l (some (text "INF"))
              (text "webstore started on port " ++ decimal so.http_port))
            log)
        e more)
closing-LogWhole so (some logfile) leaving srv log e more =
    let h : (rest : List LogLine) × (log
          ≡ some (info_line (text "webstore started on port " ++ decimal so.http_port) ∷ rest)) =
      subst
        (λ l.
          Extends
            (append_line l (some (text "INF"))
              (text "webstore started on port " ++ decimal so.http_port))
            log)
        e more in
    (
      h.0,
      ap (λ l. piped leaving (append_line l (some (text "INF")) (text "webstore shutdown"))) h.1
          ∙ ap some (
              append_assoc
                (info_line (text "webstore started on port " ++ decimal so.http_port) ∷ h.0)
                (info_line (text "webstore shutdown") ∷ []) (pipe_lines leaving)),
    )
