-- ===== src/Session/Managed.antt =====
-- `SessionManager`: the set of the sessions, and the sessions that it starts and stops.
use samp_plugin_api.Prelude.{
  ℕ, ◌≡◌, refl, ap, ◌∙◌, Bool, true, false, Option, none, some, List, [], ◌∷◌, ◌==◌, ◌||◌,
  if◌then◌else◌, arith,
}
use samp_plugin_api.Session.{
  Session, reading, armed, Manager, Heap, start, stop, insert, erase, find, update, manager_start,
  manager_stop, stop_each, manager_stop_all,
}

unfoldable pub has : ℕ → List ℕ → Bool
has i [] = false
has i (j ∷ js) = j == i || has i js

-- No id stands twice.
abbrev pub AreDistinct : List ℕ → Type 0
AreDistinct [] = Unit
AreDistinct (i ∷ is) = (has i is ≡ false) × AreDistinct is

pub has-insert : (i j : ℕ) (is : List ℕ) → has j (insert i is) ≡ (i == j || has j is)
unfolding has insert
has-insert i j [] = ground arith
has-insert i j (k ∷ is) = ground (arith, has-insert i j is)

pub insert-AreDistinct : (i : ℕ) (is : List ℕ) → AreDistinct is → AreDistinct (insert i is)
unfolding insert has
insert-AreDistinct i [] h = (refl, tt)
insert-AreDistinct i (k ∷ is) (e, h) = ground (arith, insert-AreDistinct i is h, has-insert i k is)

has-erase :
    (i j : ℕ) (is : List ℕ)
    → AreDistinct is
    → has j (erase i is) ≡ (if i == j then false else has j is)
unfolding has erase
has-erase i j [] h = ground arith
has-erase i j (k ∷ is) (e, h) = ground (arith, has-erase i j is h)

abbrev pub changed : (Session → Session) → Option Session → Option Session
changed f none = none
changed f (some s) = some (f s)

pub find-update :
    (i j : ℕ) (f : Session → Session) (heap : Heap)
    → find j (update i f heap) ≡ (if i == j then changed f (find j heap) else find j heap)
unfolding find update
find-update i j f [] = ground arith
find-update i j f ((k, s) ∷ heap) = ground (arith, find-update i j f heap)

find-stop_each :
    (i : ℕ) (is : List ℕ) (heap : Heap)
    → find i (stop_each is heap) ≡ (if has i is then changed stop (find i heap) else find i heap)
unfolding stop_each has stop
find-stop_each i [] heap = refl
find-stop_each i (j ∷ is) heap =
    ground (arith, find-stop_each i is (update j stop heap), find-update j i stop heap)

-- A session that waits for its request and its deadline, and one whose socket is closed.
abbrev pub reads : Session → Session
reads x = record x { phase = reading; timer = armed }

abbrev pub closes : Session → Session
closes x = record x { socket_open = false; send_open = false }

start_lem : (x : Session) → start x ≡ reads x
unfolding start
start_lem x = refl

stop_lem : (x : Session) → stop x ≡ closes x
unfolding stop
stop_lem x = refl

changed-by :
    (f g : Session → Session) (o : Option Session)
    → ((x : Session) → f x ≡ g x)
    → changed f o ≡ changed g o
changed-by f g none h = refl
changed-by f g (some x) h = ap some (h x)

changed-if :
    (f g : Session → Session) (b : Bool) (o : Option Session)
    → ((x : Session) → f x ≡ g x)
    → (if b then changed f o else o) ≡ (if b then changed g o else o)
changed-if f g true o h = changed-by f g o h
changed-if f g false o h = refl

-- In a set where no session stands twice: starting a session puts it in the set, after which it
-- waits for its request and for its deadline; stopping it takes it out and closes its socket; and
-- stopping all sessions empties the set and closes the sockets of exactly those that were in it. No
-- other session is changed, and nothing else of these.
pub manager_start-stop :
    (i j : ℕ) (m : Manager)
    → AreDistinct m.sessions
    → ((has j (manager_start i m).sessions ≡ (i == j || has j m.sessions))
        × (find j (manager_start i m).heap
            ≡ (if i == j then changed reads (find j m.heap) else find j m.heap)))
      × ((has j (manager_stop i m).sessions ≡ (if i == j then false else has j m.sessions))
          × (find j (manager_stop i m).heap
              ≡ (if i == j then changed closes (find j m.heap) else find j m.heap)))
      × ((has j (manager_stop_all m).sessions ≡ false)
          × (find j (manager_stop_all m).heap
              ≡ (if has j m.sessions then changed closes (find j m.heap) else find j m.heap)))
unfolding manager_start manager_stop manager_stop_all has
manager_start-stop i j m h = (
  (
    has-insert i j m.sessions,
    find-update i j start m.heap ∙ changed-if start reads (i == j) _ start_lem,
  ),
  (
    has-erase i j m.sessions h,
    find-update i j stop m.heap ∙ changed-if stop closes (i == j) _ stop_lem,
  ),
  (refl, find-stop_each j m.sessions m.heap ∙ changed-if stop closes (has j m.sessions) _ stop_lem),
)
