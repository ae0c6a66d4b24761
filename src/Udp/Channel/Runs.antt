-- ===== src/Udp/Channel/Runs.antt =====
-- Runs of a reader: a v2 fragment, then the end of the channel; and a few steps of a proxy.
use nssh.Base.{ℕ, ◌≢◌, arith, none, some, List, [], ◌∷◌, length}
use nssh.Udp.Proxy.{UdpProxy}
use nssh.Udp.Reassembler.Invariant.{new_udp_reassembler-IsValid}
use nssh.Udp.Reassembler.Order.{fragment_meta}
use nssh.Udp.Receive.{handle_frame_v2, pass_on}
use nssh.Udp.Flows.{send_keepalives}
use nssh.Udp.Channel.{Reader, read_channel}
use nssh.Udp.Channel.Ends.{read_channel_ends}
use nssh.Udp.Channel.Steps.{Reach, here, next, frame, passes, keeps_alive, IsProxy, Reach-IsProxy}
use nssh.Udp.Sample.{recorder, sample_proxy}

abbrev half_open : Reader (List (List ℕ))
half_open = record {
  proxy = sample_proxy 2;
  stream = 0 ∷ 0 ∷ 0 ∷ 9 ∷ 1 ∷ 0 ∷ 1 ∷ 0 ∷ 2 ∷ 0 ∷ 1 ∷ 5 ∷ [];
  world = [];
}

read_channel_ends_example : read_channel recorder (λ w. length w) 13 half_open ≢ none
read_channel_ends_example = read_channel_ends recorder (λ w. length w) 13 half_open (omega arith)

abbrev waiting : UdpProxy
waiting = (handle_frame_v2 (sample_proxy 2) 5 (fragment_meta 9 1 3 2) (4 ∷ 5 ∷ [])).1

abbrev passed : UdpProxy
passed = (pass_on recorder waiting 6 (some (9, 1 ∷ [])) []).0

abbrev kept : UdpProxy
kept = (send_keepalives recorder passed 100_000_000_000 []).0

three_steps : Reach recorder (sample_proxy 2) kept
three_steps = next (frame (sample_proxy 2) 5 (fragment_meta 9 1 3 2) (4 ∷ 5 ∷ [])) (
    next (passes waiting 6 (some (9, 1 ∷ [])) [])
      (next (keeps_alive passed 100_000_000_000 []) (here kept)))

Reach-IsProxy_example : IsProxy kept
Reach-IsProxy_example = Reach-IsProxy recorder three_steps (record {
  table = record { one_each = tt; entries = tt };
  fragments = new_udp_reassembler-IsValid;
})
