-- ===== src/Client/Listing/Columns.antt =====
-- The table of the list: its columns hold their texts, up to their limits.
use nssh.Base.{◌≤◌, arith, List, [], ◌∷◌, All, min}
use Prim.Native.String.{len}
use nssh.Client.Listing.{Row, Widths, least_widths, widen_for, widths_for}

-- The row's texts fit their columns, cut at 40, 20 and 30 bytes where the columns are limited.
pub record Fits (w : Widths) (r : Row) : Type 0 where
  pub remote_port_fits : len r.remote_port ≤ w.remote_port_width
  pub proto_fits : len r.proto ≤ w.proto_width
  pub status_fits : len r.status ≤ w.status_width
  pub local_fits : min (len r.local) 40 ≤ w.local_width
  pub user_fits : min (len r.username) 20 ≤ w.user_width
  pub server_fits : min (len r.remote_server) 30 ≤ w.remote_server_width

-- No column of the second is narrower.
record Wider (v w : Widths) : Type 0 where
  local_grows : v.local_width ≤ w.local_width
  remote_port_grows : v.remote_port_width ≤ w.remote_port_width
  proto_grows : v.proto_width ≤ w.proto_width
  user_grows : v.user_width ≤ w.user_width
  server_grows : v.remote_server_width ≤ w.remote_server_width
  status_grows : v.status_width ≤ w.status_width

pub record IsLimited (w : Widths) : Type 0 where
  pub local_limit : w.local_width ≤ 40
  pub user_limit : w.user_width ≤ 20
  pub server_limit : w.remote_server_width ≤ 30

widen_for-Wider : (r : Row) (w : Widths) → IsLimited w → Wider w (widen_for r w)
unfolding widen_for
widen_for-Wider r w h = ground arith

widen_for-IsLimited : (r : Row) (w : Widths) → IsLimited w → IsLimited (widen_for r w)
unfolding widen_for
widen_for-IsLimited r w h = ground arith

widen_for-Fits : (r : Row) (w : Widths) → IsLimited w → Fits (widen_for r w) r
unfolding widen_for
widen_for-Fits r w h = ground arith

Wider-trans : {u v w : Widths} → Wider u v → Wider v w → Wider u w
Wider-trans h k = ground arith

Fits-Wider : {v w : Widths} {r : Row} → Fits v r → Wider v w → Fits w r
Fits-Wider h k = ground arith

widths_for-Wider : (rs : List Row) (w : Widths) → IsLimited w → Wider w (widths_for rs w)
unfolding widths_for
widths_for-Wider [] w h = ground arith
widths_for-Wider (r ∷ rs) w h =
    Wider-trans (widen_for-Wider r w h)
      (widths_for-Wider rs (widen_for r w) (widen_for-IsLimited r w h))

columns_hold :
    (rs : List Row) (w : Widths)
    → IsLimited w
    → IsLimited (widths_for rs w) × All (Fits (widths_for rs w)) rs
unfolding widths_for
columns_hold [] w h = (h, tt)
columns_hold (r ∷ rs) w h =
    let limited = widen_for-IsLimited r w h in
    let (limits, rest) = columns_hold rs (widen_for r w) limited in
    (
      limits,
      (Fits-Wider (widen_for-Fits r w h) (widths_for-Wider rs (widen_for r w) limited), rest),
    )

-- The columns of the list hold the texts of all rows, cut at 40 bytes for the local address, 20
-- for the user and 30 for the server, and these three columns stay within their limits.
pub widths_for-Fits :
    (rs : List Row)
    → IsLimited (widths_for rs least_widths) × All (Fits (widths_for rs least_widths)) rs
widths_for-Fits rs = columns_hold rs least_widths (omega arith)
