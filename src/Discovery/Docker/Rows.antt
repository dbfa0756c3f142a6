-- ===== src/Discovery/Docker/Rows.antt =====
-- The candidates that a pass over the containers reports.
use auto_tunnel.Prelude.{
  ◌≡◌, refl, subst, true, List, [], ◌∷◌, leb, if_both, length, All, Result, ok, err,
}
use auto_tunnel.Prelude.Sort.{All-sort_by}
use auto_tunnel.GoMap.{Map}
use auto_tunnel.Text.{Bytes, is_empty, trim_space, split}
use auto_tunnel.Discovery.Types.{PortMap, published}
use auto_tunnel.Discovery.Ports.Expand.{Ends, Gives, Run, never_returns, returns}
use auto_tunnel.Discovery.Docker.{max_line, Options, PsLine, Seen, name_port_less}
use auto_tunnel.Discovery.Docker.Pass.{
  see_line, scan_lines, attach, resolve, sorted_rows, finish, discover_answer, discover,
}
use auto_tunnel.Discovery.Docker.Read.{
  AreRows, IsContainerRow, IsSeen, IsSeenRow, attach_one-AreRows, loopback-nonempty,
  see_container-IsSeen, with_target,
}

-- Without an id to ask for, every row has its target already.
published_rows :
    (o : Options) (maps : List PortMap)
    → All (IsSeenRow o) maps
    → All (λ pm. published pm ≡ true) maps
    → All (IsContainerRow o) maps
published_rows o [] h p = tt
published_rows o (pm ∷ maps) h p = (
  with_target o pm h.0 (loopback-nonempty pm.target_host (h.0.loop p.0)),
  published_rows o maps h.1 p.1,
)

module _ (visit : Map Bytes → Map Bytes) (decode : Bytes → Result Bytes PsLine)
    (remote : Bytes → Result Bytes Bytes) (o : Options) where
  see_line-IsSeen :
      (raw : Bytes) (seen : Seen)
      → IsSeen o seen
      → Ends (IsSeen o) (see_line visit decode remote o raw seen)
  unfolding see_line
  see_line-IsSeen raw seen h =
      if_both (Ends (IsSeen o)) (is_empty (trim_space raw)) (λ e. h)
        (λ e. see_container-IsSeen o (decode (trim_space raw)) seen h)

  scan_lines-IsSeen :
      (raws : List Bytes) (seen : Seen)
      → IsSeen o seen
      → Gives (IsSeen o) (scan_lines visit decode remote o raws seen)
  unfolding scan_lines
  scan_lines-IsSeen [] seen h = h
  scan_lines-IsSeen (raw ∷ rest) seen h =
      if_both (Gives (IsSeen o)) (leb max_line (length raw)) (λ e. tt)
        (λ e.
          go (see_line visit decode remote o raw seen) (see_line-IsSeen raw seen h)
            (λ next. scan_lines-IsSeen rest next))
    where
      go :
          (r : Run Seen)
          → Ends (IsSeen o) r
          → ((next : Seen)
              → IsSeen o next
              → Gives (IsSeen o) (scan_lines visit decode remote o rest next))
          → Gives (IsSeen o) (elim r [
            | never_returns ↦ never_returns
            | returns next ↦ scan_lines visit decode remote o rest next
          ])
      go never_returns i k = tt
      go (returns next) i k = k next i

  attach-AreRows :
      (ips : Map Bytes) (maps : List PortMap)
      → All (IsSeenRow o) maps
      → AreRows o (attach visit decode remote ips maps)
  unfolding attach
  attach-AreRows ips [] h = tt
  attach-AreRows ips (pm ∷ maps) h = attach_one-AreRows o pm _ _ h.0 (attach-AreRows ips maps h.1)

  resolve-AreRows :
      (need : List Bytes) (seen : Seen)
      → seen.need_ip ≡ need
      → IsSeen o seen
      → All (IsContainerRow o) (resolve visit decode remote o need seen).maps
  unfolding resolve
  resolve-AreRows [] seen e h = published_rows o seen.maps h.0 (h.1 e)
  resolve-AreRows (id ∷ need) seen e h = attach-AreRows _ seen.maps h.0

  finish-AreRows :
      (run : Run (Result Bytes Seen))
      → Gives (IsSeen o) run
      → Gives (λ s. All (IsContainerRow o) s.maps) (finish visit decode remote o run)
  unfolding finish sorted_rows
  finish-AreRows never_returns h = tt
  finish-AreRows (returns (err e)) h = tt
  finish-AreRows (returns (ok seen)) h =
      All-sort_by name_port_less (IsContainerRow o) _ (resolve-AreRows seen.need_ip seen refl h)

  answer-AreRows :
      (a : Result Bytes Bytes)
      → Gives (λ s. All (IsContainerRow o) s.maps) (discover_answer visit decode remote o a)
  unfolding discover_answer
  answer-AreRows (err e) = tt
  answer-AreRows (ok out) = finish-AreRows _ (scan_lines-IsSeen (split b'\n' out) _ (tt, λ n. tt))

-- Whatever the remote host answers, a pass that succeeds reports only candidates of a container whose
-- name the filters keep: owned by the container's id, not offered, with an address to dial, which is
-- the loopback address where the port is published. Without `include_unpublished` all are published.
pub discover-IsContainerRow :
    (visit : Map Bytes → Map Bytes) (decode : Bytes → Result Bytes PsLine)
    (remote : Bytes → Result Bytes Bytes) (o : Options) (seen : Seen)
    → discover visit decode remote o ≡ returns (ok seen)
    → All (IsContainerRow o) seen.maps
unfolding discover
discover-IsContainerRow visit decode remote o seen e =
    subst (Gives (λ s. All (IsContainerRow o) s.maps)) e
      (answer-AreRows visit decode remote o (remote o.ps_command))
