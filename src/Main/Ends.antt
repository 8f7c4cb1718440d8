-- ===== src/Main/Ends.antt =====
-- The main loop ends once a signal asks for it (src/webstore.c, main).
use webstore.Base.{
  ◌≡◌, ◌∙◌, Bool, true, false, not, ◌&&◌, ◌||◌, List, [], ◌∷◌, Bool-cases, inl, inr, arith,
}
use webstore.Redis.{Redis}
use webstore.Main.{runs}
use webstore.Main.Signals.{stops, sig_handler-runs}
use webstore.Main.Program.{Prog, Event, signal, alarm, connection, handle, main_loop, caught}

-- the events that ask for the end
abbrev pub asks_end : List Event → Bool
asks_end [] = false
asks_end (signal sig ∷ events) = stops sig || asks_end events
asks_end (_ ∷ events) = asks_end events

main_loop-over :
    {R : Redis} (events : List Event) (p : Prog R)
    → runs p.service.srv ≡ false
    → (main_loop events p).1 ≡ false
unfolding main_loop
main_loop-over [] p off = off
main_loop-over (e ∷ events) p off = rw off

and_not : (a b : Bool) → b ≡ true → (a && not b) ≡ false
and_not a b h = ground arith

other_way : (a b : Bool) → a ≡ false → (a || b) ≡ true → b ≡ true
other_way a b h k = ground arith

-- one event of those that ask for the end, or the events after it
event-ends :
    {R : Redis} (e : Event) (events : List Event) (p : Prog R)
    → asks_end (e ∷ events) ≡ true
    → (asks_end events ≡ true → (main_loop events (handle e p)).1 ≡ false)
    → (main_loop events (handle e p)).1 ≡ false
unfolding handle
event-ends (signal sig) events p h rest = elim (Bool-cases (stops sig)) [
  | inl stop ↦
      main_loop-over events (handle (signal sig) p)
        (sig_handler-runs sig p.service.srv ∙ and_not (runs p.service.srv) (stops sig) stop)
  | inr goes_on ↦ rest (other_way (stops sig) (asks_end events) goes_on h)
]
event-ends alarm events p h rest = rest h
event-ends (connection section) events p h rest = rest h
event-ends caught events p h rest = rest h

pub main_loop-ends :
    {R : Redis} (events : List Event) (p : Prog R)
    → asks_end events ≡ true
    → (main_loop events p).1 ≡ false
unfolding main_loop
main_loop-ends [] p h = absurd (cc)
main_loop-ends (e ∷ events) p h = elim (Bool-cases (runs p.service.srv)) [
  | inr off ↦ rw off
  | inl on ↦ rw on (event-ends e events p h (main_loop-ends events (handle e p)))
]
