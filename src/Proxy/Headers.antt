-- ===== src/Proxy/Headers.antt =====
-- `removeHopByHop` of internal/proxy/server.go.
use mathlib.Core.List.{flat_map, map-append}
use proxysim.Prelude.{
  ◌≡◌, refl, List, [], ◌∷◌, ◌++◌, map, Option, none, Text, codes, lookup, lookup-erase, member,
  member-append, is_nil, if◌then◌else◌, arith,
}
use proxysim.Strings.{split_on, trim_space, nonblank}
use proxysim.Http.{Header, canonical, values, del}

abbrev pub hop_by_hop : List Text
hop_by_hop =
    codes "Connection"
    ∷ codes "Proxy-Connection"
    ∷ codes "Keep-Alive"
    ∷ codes "Proxy-Authenticate"
    ∷ codes "Proxy-Authorization"
    ∷ codes "Te"
    ∷ codes "Trailer"
    ∷ codes "Transfer-Encoding"
    ∷ codes "Upgrade"
    ∷ []

-- the loop over the tokens of one value
unfoldable pub del_tokens : List Text → Header → Header
del_tokens [] h = h
del_tokens (token ∷ tokens) h =
    let name = trim_space token in del_tokens tokens (if is_nil name then h else del name h)

-- the loop over the values of Connection, which were read before anything was deleted
unfoldable pub del_values : List Text → Header → Header
unfolding del_tokens
del_values [] h = h
del_values (v ∷ vs) h = del_values vs (del_tokens (split_on b',' v) h)

unfoldable pub del_all : List Text → Header → Header
del_all [] h = h
del_all (name ∷ names) h = del_all names (del name h)

unfoldable pub remove_hop_by_hop : Header → Header
unfolding del_values del_all
remove_hop_by_hop h = del_all hop_by_hop (del_values (values h (codes "Connection")) h)

-- the names that the Connection header lists
abbrev pub connection_names : Header → List Text
connection_names h =
    map canonical (nonblank (flat_map (split_on b',') (values h (codes "Connection"))))

-- what a deletion of several names leaves of a lookup
abbrev kept : List Text → Text → Option (List Text) → Option (List Text)
kept names j found = if member j names then none else found

lookup-del_all :
    (names : List Text) (h : Header) (j : Text)
    → lookup j (del_all names h) ≡ kept (map canonical names) j (lookup j h)
unfolding del_all del member
lookup-del_all [] h j = refl
lookup-del_all (n ∷ names) h j =
    ground (arith, lookup-del_all names (del n h) j, lookup-erase (canonical n) j h)

lookup-del_tokens :
    (tokens : List Text) (h : Header) (j : Text)
    → lookup j (del_tokens tokens h) ≡ kept (map canonical (nonblank tokens)) j (lookup j h)
unfolding del_tokens nonblank del member
lookup-del_tokens [] h j = refl
lookup-del_tokens (t ∷ tokens) h j =
    let h' = if is_nil (trim_space t) then h else del (trim_space t) h in
    ground (arith, lookup-del_tokens tokens h' j, lookup-erase (canonical (trim_space t)) j h)

nonblank-append : (xs ys : List Text) → nonblank (xs ++ ys) ≡ nonblank xs ++ nonblank ys
unfolding nonblank
nonblank-append [] ys = refl
nonblank-append (x ∷ xs) ys = ground (arith, nonblank-append xs ys)

lookup-del_values :
    (vs : List Text) (h : Header) (j : Text)
    → lookup j (del_values vs h)
      ≡ kept (map canonical (nonblank (flat_map (split_on b',') vs))) j (lookup j h)
unfolding del_values flat_map nonblank member
lookup-del_values [] h j = refl
lookup-del_values (v ∷ vs) h j =
    let f = split_on b',' in
    ground (
      arith,
      lookup-del_values vs (del_tokens (f v) h) j,
      lookup-del_tokens (f v) h j,
      nonblank-append (f v) (flat_map f vs),
      map-append canonical (nonblank (f v)) (nonblank (flat_map f vs)),
      member-append j (map canonical (nonblank (f v))) (map canonical (nonblank (flat_map f vs))),
    )

-- the nine names are canonical
map-canonical : map canonical hop_by_hop ≡ hop_by_hop
unfolding canonical
map-canonical = refl

-- The names that Connection lists and the nine hop-by-hop names are gone; every other name has the
-- values that it had.
pub lookup-remove_hop_by_hop :
    (h : Header) (j : Text)
    → lookup j (remove_hop_by_hop h)
      ≡ (if member j (connection_names h ++ hop_by_hop) then none else lookup j h)
unfolding remove_hop_by_hop
lookup-remove_hop_by_hop h j =
    let vs = values h (codes "Connection") in
    ground (
      arith,
      lookup-del_all hop_by_hop (del_values vs h) j,
      lookup-del_values vs h j,
      map-canonical,
      member-append j (connection_names h) hop_by_hop,
    )
