-- ===== src/Udp/Channel.antt =====
-- The loop over a data channel, `readChannel`, and `closeChannels` (base_tunnel/udp_proxy.go).
pub mod Ends
pub mod Steps
mod Runs
use nssh.Base.{ℕ, zero, suc, ◌+◌, Bool, Option, none, some, List, [], ◌∷◌}
use nssh.Wire.{Result, ok, err, ReadError}
use nssh.Udp.Link.{Link}
use nssh.Udp.Proxy.{UdpProxy}
use nssh.Udp.Receive.{Received, read_datagram_from, pass_on}

-- What the loop goes through from one state to the next.
pub record Reader (W : Type 0) : Type 0 where
  pub proxy : UdpProxy
  pub stream : List ℕ
  pub world : W

module _ {W : Type 0} (link : Link W) (clock : W → ℕ) where
  -- One round: an error ends the loop.
  unfoldable pub after_read : W → Result (Received × UdpProxy × List ℕ) → Result (Reader W)
  unfolding pass_on
  after_read w (err e) = err e
  after_read w (ok (got, p, rest)) =
      let (p', w') = pass_on link p (clock w) got w in
      ok (record { proxy = p'; stream = rest; world = w' })

  unfoldable pub read_round : Reader W → Result (Reader W)
  unfolding after_read read_datagram_from
  read_round s = after_read s.world (read_datagram_from s.proxy (clock s.world) s.stream)

  abbrev pub with_round :
      Reader W
      → Result (Reader W)
      → (Reader W → Option (ReadError × Reader W))
      → Option (ReadError × Reader W)
  with_round s (err e) go_on = some (e, s)
  with_round s (ok s') go_on = go_on s'

  -- The error that ended the loop and the state behind it, or `none` for more than `fuel` rounds.
  unfoldable pub read_channel : ℕ → Reader W → Option (ReadError × Reader W)
  unfolding read_round
  read_channel zero s = none
  read_channel (suc fuel) s = with_round s (read_round s) (read_channel fuel)
