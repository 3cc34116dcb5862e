-- ===== src/Tests/Changes.antt =====
-- Changes that the network makes to the small stack, and that they keep the socket in place.
use ra6m3_rtic.Prelude.{[], ◌∷◌}
use ra6m3_rtic.Smoltcp.{State}
use ra6m3_rtic.PollShare.{World}
use ra6m3_rtic.Socket.Lifecycle.{Held, Connecting}
use ra6m3_rtic.Tests.Toy.{Toy, toy, socket_in, on_all, on_all-Holds, first}

abbrev pub shut : Toy
shut = socket_in State.closed []

abbrev pub running : Toy
running = socket_in State.established []

-- The peer answers.
abbrev pub synchronizes : Toy → Toy
synchronizes s = record s { st = State.established }

-- The peer resets the connection.
abbrev pub dies : Toy → Toy
dies s = record s { st = State.closed }

-- An octet comes in.
abbrev pub chats : Toy → Toy
chats s = record s { rx = 1 ∷ [] }

pub synchronizes-Connecting :
    (x : Unit {0}) (w : World toy)
    → Connecting toy first w
    → Connecting toy first (on_all synchronizes w)
synchronizes-Connecting x w (s, h, ne) =
    (synchronizes s, on_all-Holds synchronizes first s w h, λ l. cc)

pub stays-Held :
    (f : Toy → Toy) (x : Unit {0}) (w : World toy) → Held toy first w → Held toy first (on_all f w)
stays-Held f x w (s, h) = (f s, on_all-Holds f first s w h)
