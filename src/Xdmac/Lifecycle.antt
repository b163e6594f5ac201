-- ===== src/Xdmac/Lifecycle.antt =====
-- What the channel driver promises, without the hardware: the life cycle of a channel as a table, and
-- the commands of a client as functions on the driver's memory.
use taste_samx_rtems_runtime.Common.{ℕ, Option, none, some, leb, set, get_elem?, if◌then◌else◌}
use taste_samx_rtems_runtime.Xdmac.Machine.{
  XdmadRc, XdmadState, free, start, in_xfr, done, halted, XdmadChannel, Xdmad,
}

-- A client's command on a channel: the operations of xdmad.h but allocation and polling.
pub data Command : Type 0 where
  release prepare configure begin stop : Command
  subscribe : Option ℕ → ℕ → Command

-- What is replied to a command, and the next state.
unfoldable pub next : Command → XdmadState → XdmadRc × XdmadState
next stop s = (XdmadRc.ok, halted)
next release free = (XdmadRc.ok, free)
next release done = (XdmadRc.ok, free)
next release halted = (XdmadRc.ok, free)
next release s = (XdmadRc.busy, s)
next prepare free = (XdmadRc.error, free)
next prepare start = (XdmadRc.busy, start)
next prepare in_xfr = (XdmadRc.busy, in_xfr)
next prepare s = (XdmadRc.ok, s)
next begin free = (XdmadRc.error, free)
next begin start = (XdmadRc.busy, start)
next begin s = (XdmadRc.ok, start)
next configure free = (XdmadRc.error, free)
next configure start = (XdmadRc.busy, start)
next configure s = (XdmadRc.ok, s)
next (subscribe f a) free = (XdmadRc.error, free)
next (subscribe f a) start = (XdmadRc.busy, start)
next (subscribe f a) s = (XdmadRc.ok, s)

-- A callback is stored if it is accepted.
abbrev pub noted : Command → XdmadRc → XdmadChannel → XdmadChannel
noted (subscribe f a) XdmadRc.ok c = record c { callback = f; arg = a }
noted _ _ c = c

abbrev pub step : Command → XdmadChannel → XdmadRc × XdmadChannel
step k c = let (rc, s) = next k c.state in (rc, noted k rc (record c { state = s }))

abbrev pub with_list : Xdmad → ℕ → XdmadChannel → Xdmad
with_list d i c = record d { channels = set d.channels i c }

-- A command on channel `i` of the driver.
unfoldable pub apply : Command → ℕ → Xdmad → XdmadRc × Xdmad
apply k i d = if leb d.num_channels i then (XdmadRc.error, d) else elim (get_elem? d.channels i) [
  | none ↦ (XdmadRc.error, d)
  | some c ↦ (let (rc, c') = step k c in (rc, with_list d i c'))
]
