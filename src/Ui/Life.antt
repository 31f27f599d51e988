-- ===== src/Ui/Life.antt =====
-- The life of a client of src/ui/app.cpp, from `init_xdg` or `init_layer` to the end of `run`.
use finn_os.Base.{◌≡◌, inl, false, List, arith, sym, ap, ◌∙◌, length}
use finn_os.Ui.State.{Client}
use finn_os.Ui.Beginning.{Begins, Begins-IsNew}
use finn_os.Ui.Events.{Turn, loop, run}
use finn_os.Ui.Quiet.{core}
use finn_os.Ui.Exchange.{IsTidy, loop-IsTidy, IsReleased, run-IsReleased, IsClosing, loop-IsClosing}
use finn_os.Ui.Waking.{IsAwake}
use finn_os.Ui.Waking.Handlers.{loop-IsAwake}

begun-IsTidy : {c : Client} → Begins c → IsTidy (core c)
begun-IsTidy b =
    let new = Begins-IsNew b in record { closed = new.1; one_map = new.2 ∙ sym (ap length new.0) }

-- However the calls of the system end, and whatever the compositor sends: from the beginning of a
-- client, no descriptor of a buffer stays open, and there is one map for each buffer.
pub life-IsTidy : {c : Client} (turns : List Turn) → Begins c → IsTidy (core (loop turns c))
life-IsTidy {c} turns b = loop-IsTidy turns c (begun-IsTidy b)

-- When `run` returns after a beginning that did not fail, no descriptor of a buffer is open, and no
-- map, no buffer and no output is left, however its loop ended.
pub life-IsReleased :
    {c : Client} (turns : List Turn) → Begins c → c.failed ≡ false → IsReleased (run turns c).0
life-IsReleased {c} turns b working = run-IsReleased turns c (begun-IsTidy b) working

-- From the beginning of a client and after any turns of its loop: either nobody has asked for its end
-- and the app was not told of one, or the app was told exactly once and the loop is not to go on.
pub life-IsClosing : {c : Client} (turns : List Turn) → Begins c → IsClosing (core (loop turns c))
life-IsClosing {c} turns b = let new = Begins-IsNew b in loop-IsClosing turns c (inl (new.3, new.4))

-- From the beginning of a client and after any turns of its loop, the client is not drawing, and
-- where a frame is owed of a configured and running window that has not failed, its frame callback or
-- the release of a busy buffer is to come, or it has no buffer at all.
pub life-IsAwake : {c : Client} (turns : List Turn) → Begins c → IsAwake (loop turns c)
life-IsAwake {c} turns b =
    let new = Begins-IsNew b in
    let no_frame = new.6 in loop-IsAwake turns c (record { idle = new.5; awake = ground arith })
