-- ===== src/Proxy/Connect/Adapters.antt =====
-- The adapters of internal/proxy/connect.go: the hijacked connection, which reads what the server had
-- buffered first, and the listener that hands one connection to http.Serve.
use proxysim.Prelude.{
  ℕ, zero, suc, ◌+◌, ◌≤◌, ◌≡◌, refl, ap, sym, ◌∙◌, Bool, true, false, List, [], ◌∷◌, ◌++◌,
  append_assoc, Text, take, drop, is_nil, if◌then◌else◌, arith,
}

-- `bufConn`: what bufio holds, and what the socket will still yield.
pub record BufConn : Type 0 where
  pub buffered : Text
  pub socket : Text

-- `Read` of a buffer of `n` bytes
unfoldable pub read : ℕ → BufConn → Text × BufConn
read n c =
    if is_nil c.buffered
    then (take n c.socket, record c { socket = drop n c.socket })
    else (take n c.buffered, record c { buffered = drop n c.buffered })

-- what reads of some sizes yield together, and the connection behind them
read_sizes : List ℕ → BufConn → Text × BufConn
unfolding read
read_sizes [] c = ([], c)
read_sizes (n ∷ ns) c =
    let (out, c') = read n c in let (rest, c'') = read_sizes ns c' in (out ++ rest, c'')

take-drop : (n : ℕ) (s : Text) → take n s ++ drop n s ≡ s
take-drop zero s = refl
take-drop (suc n) [] = refl
take-drop (suc n) (b ∷ s) = ap (◌∷◌ b) (take-drop n s)

read_lem :
    (n : ℕ) (c : BufConn)
    → let (out, c') = read n c in out ++ (c'.buffered ++ c'.socket) ≡ c.buffered ++ c.socket
unfolding read
read_lem n c = from c.buffered
  where
    from :
        (b : Text)
        → let (out, c') = read n (record c { buffered = b }) in
          out ++ (c'.buffered ++ c'.socket) ≡ b ++ c.socket
    from [] = take-drop n c.socket
    from (k ∷ b) =
        sym (append_assoc (take n (k ∷ b)) (drop n (k ∷ b)) c.socket)
        ∙ ap (λ t. t ++ c.socket) (take-drop n (k ∷ b))

-- Whatever the sizes of the reads: they yield, in order and without a gap, what was buffered and then
-- what the socket yields, so that a ClientHello that came with the CONNECT is not lost.
read_sizes_lem :
    (ns : List ℕ) (c : BufConn)
    → let (out, c') = read_sizes ns c in out ++ (c'.buffered ++ c'.socket) ≡ c.buffered ++ c.socket
unfolding read_sizes
read_sizes_lem [] c = refl
read_sizes_lem (n ∷ ns) c =
    let (out, c') = read n c in
    let (rest, c'') = read_sizes ns c' in
    append_assoc out rest (c''.buffered ++ c''.socket)
    ∙ ap (λ t. out ++ t) (read_sizes_lem ns c')
    ∙ read_lem n c

-- `singleConnListener`: whether the channel still holds the connection, and whether it was closed.
pub record SingleConnListener : Type 0 where
  pub handed : Bool
  pub closed : Bool

unfoldable pub new_single_conn_listener : SingleConnListener
new_single_conn_listener = record { handed = true; closed = false }

-- What a call does next: Accept by one case of its select, or Close.
pub data Call : Type 0 where
  accept_conn accept_closed close : Call

-- a call that is ready; an Accept that is not blocks
unfoldable pub ready : SingleConnListener → Call → Bool
ready l accept_conn = l.handed
ready l accept_closed = l.closed
ready l close = true

unfoldable pub serve_call : Call → SingleConnListener → SingleConnListener
serve_call accept_conn l = record l { handed = false }
serve_call accept_closed l = l
serve_call close l = record l { closed = true }

-- the number of connections that a sequence of calls, as they get ready, is handed
accepted : List Call → SingleConnListener → ℕ
unfolding ready serve_call
accepted [] l = 0
accepted (accept_conn ∷ calls) l =
    let rest = accepted calls (serve_call accept_conn l) in
    if ready l accept_conn then rest + 1 else accepted calls l
accepted (accept_closed ∷ calls) l = accepted calls l
accepted (close ∷ calls) l = accepted calls (serve_call close l)

accepted_none :
    (calls : List Call) (l : SingleConnListener) → l.handed ≡ false → accepted calls l ≡ 0
unfolding accepted
accepted_none [] l h = refl
accepted_none (accept_conn ∷ calls) l h = ground (arith, h, accepted_none calls l h)
accepted_none (accept_closed ∷ calls) l h = accepted_none calls l h
accepted_none (close ∷ calls) l h = accepted_none calls (record l { closed = true }) h

-- However Accept and Close are called, the connection is handed out at most once.
accepted_once : (calls : List Call) (l : SingleConnListener) → accepted calls l ≤ 1
unfolding accepted
accepted_once [] l = omega arith
accepted_once (accept_conn ∷ calls) l =
    ground (arith, accepted_once calls l, accepted_none calls (record l { handed = false }) refl)
accepted_once (accept_closed ∷ calls) l = accepted_once calls l
accepted_once (close ∷ calls) l = accepted_once calls (record l { closed = true })
