-- ===== src/Client/Socket.antt =====
-- The socket of examples/example.c: `netkeyer_init` and `netkeyer_close`.
use cwdaemon.Base.{
  ◌≡◌, refl, ap, true, false, not, ◌&&◌, Option, none, some, List, [], ◌∷◌, ℤ, pos, negsuc, ltb_ℤ,
  All, arith, if◌then◌else◌, ◌⊎◌,
}
use cwdaemon.Device.Ttys.{failed}

-- The descriptor in use, and the ones that were opened and closed, the newest first.
pub record Dialled : Type 0 where
  pub fd : ℤ
  pub opened : List ℤ
  pub closed : List ℤ

abbrev pub undialled : Dialled
undialled = record { fd = negsuc 0; opened = []; closed = [] }

-- The loop over the addresses: of each, what `socket` and what `connect` answer.
unfoldable pub try_addresses : List (ℤ × ℤ) → Dialled → Dialled
try_addresses [] d = d
try_addresses ((fd, rc) ∷ rest) d =
    let skipped = try_addresses rest d in
    let refused =
      try_addresses rest (record d { opened = fd ∷ d.opened; closed = fd ∷ d.closed }) in
    if failed fd
    then skipped
    else if not (failed rc)
    then record d { fd = fd; opened = fd ∷ d.opened }
    else refused

-- `none` is an error of getaddrinfo.
unfoldable pub netkeyer_init : Option (List (ℤ × ℤ)) → Dialled
unfolding try_addresses
netkeyer_init none = undialled
netkeyer_init (some addresses) = try_addresses addresses undialled

-- The answer is that of `close`; the result is what `netkeyer_close` returns.
unfoldable pub netkeyer_close : ℤ → Dialled → ℤ × Dialled
netkeyer_close answer d =
    if ltb_ℤ d.fd (pos 0)
    then (pos 0, d)
    else (if failed answer then negsuc 0 else pos 0, record d { closed = d.fd ∷ d.closed })

-- A descriptor is -1 or not negative.
abbrev pub IsDescriptor : ℤ → Type 0
IsDescriptor fd = (failed fd ≡ true) ⊎ (ltb_ℤ fd (pos 0) ≡ false)

-- All but the one in use is closed.
abbrev pub IsTidy : Dialled → Type 0
IsTidy d = d.opened ≡ (if ltb_ℤ d.fd (pos 0) then d.closed else d.fd ∷ d.closed)

try_addresses-IsTidy :
    (addresses : List (ℤ × ℤ)) (d : Dialled)
    → All (λ a. IsDescriptor a.0) addresses
    → d.fd ≡ negsuc 0
    → d.opened ≡ d.closed
    → IsTidy (try_addresses addresses d)
unfolding try_addresses
try_addresses-IsTidy [] d h q t = rw q t
try_addresses-IsTidy ((fd, rc) ∷ rest) d (h, hs) q t =
    let skipped = try_addresses-IsTidy rest d hs q t in
    let refused =
      try_addresses-IsTidy rest (record d { opened = fd ∷ d.opened; closed = fd ∷ d.closed }) hs q
        (ap (λ l. fd ∷ l) t) in
    ground arith

abbrev pub AreDescriptors : Option (List (ℤ × ℤ)) → Type 0
AreDescriptors none = Unit
AreDescriptors (some addresses) = All (λ a. IsDescriptor a.0) addresses

-- The first address that can be connected to is the one in use: those before it have no socket, or
-- refused.
abbrev pub first_open : List (ℤ × ℤ) → ℤ
first_open [] = negsuc 0
first_open ((fd, rc) ∷ rest) = if not (failed fd) && not (failed rc) then fd else first_open rest

try_addresses-first :
    (addresses : List (ℤ × ℤ)) (d : Dialled)
    → d.fd ≡ negsuc 0
    → (try_addresses addresses d).fd ≡ first_open addresses
unfolding try_addresses
try_addresses-first [] d q = q
try_addresses-first ((fd, rc) ∷ rest) d q =
    let skipped = try_addresses-first rest d q in
    let refused =
      try_addresses-first rest (record d { opened = fd ∷ d.opened; closed = fd ∷ d.closed }) q in
    ground arith

abbrev pub addresses_of : Option (List (ℤ × ℤ)) → List (ℤ × ℤ)
addresses_of none = []
addresses_of (some addresses) = addresses

-- `netkeyer_init` returns the socket of the first address that can be connected to, or -1 if there
-- is none, and leaves no other socket open: each one that it opened is closed, once and in that
-- order, but for the one that it returns; and `netkeyer_close` closes this one, once, and nothing if
-- it is -1. A socket is -1 or not negative.
pub netkeyer_init_lem :
    (answers : Option (List (ℤ × ℤ))) (answer : ℤ)
    → AreDescriptors answers
    → ((netkeyer_init answers).fd ≡ first_open (addresses_of answers))
      × IsTidy (netkeyer_init answers)
      × ((netkeyer_close answer (netkeyer_init answers)).1.closed ≡ (netkeyer_init answers).opened)
unfolding netkeyer_init netkeyer_close
netkeyer_init_lem none answer h = (refl, refl, refl)
netkeyer_init_lem (some addresses) answer h =
    let tidy = try_addresses-IsTidy addresses undialled h refl refl in
    (try_addresses-first addresses undialled refl, tidy, ground arith)
