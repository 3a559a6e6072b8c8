-- ===== src/Config/Validate/Names.antt =====
-- Lists of names none of which comes twice, against the map of the names seen so far in `Validate` of
-- internal/config/config.go.
use ciallo.Common.{◌≡◌, ◌≢◌, Bytes, List, [], ◌∷◌, ◌++◌, false, none, bytes_eq, arith, All}
use ciallo.Common.Dict.{lookup, insert, lookup-insert, lookup-nil}
use ciallo.Go.Defaults.{is_blank}
use ciallo.Config.Validate.{SeenHosts}

-- Every name is new: not empty, and not one of those before it.
unfoldable pub New : List Bytes → SeenHosts → Type 0
New [] seen = Unit
New (n ∷ ns) seen = (is_blank n ≡ false) × (lookup n seen ≡ none) × New ns (insert n tt seen)

unfoldable pub mark : List Bytes → SeenHosts → SeenHosts
mark [] seen = seen
mark (n ∷ ns) seen = mark ns (insert n tt seen)

pub New-append :
    (xs ys : List Bytes) (s : SeenHosts) → New xs s → New ys (mark xs s) → New (xs ++ ys) s
unfolding New mark
New-append [] ys s hx hy = hy
New-append (x ∷ xs) ys s (a, b, hx) hy = (a, b, New-append xs ys (insert x tt s) hx hy)

pub New-split :
    (xs ys : List Bytes) (s : SeenHosts) → New (xs ++ ys) s → New xs s × New ys (mark xs s)
unfolding New mark
New-split [] ys s h = (tt, h)
New-split (x ∷ xs) ys s (a, b, h) =
    let (hx, hy) = New-split xs ys (insert x tt s) h in ((a, b, hx), hy)

-- No name comes twice.
abbrev pub Distinct : List Bytes → Type 0
Distinct [] = Unit
Distinct (n ∷ ns) = All (λ (m : Bytes). m ≢ n) ns × Distinct ns

abbrev pub Unseen : SeenHosts → List Bytes → Type 0
Unseen seen ns = All (λ (m : Bytes). lookup m seen ≡ none) ns

Unseen_one :
    (m n : Bytes) (s : SeenHosts) → lookup m (insert n tt s) ≡ none → (m ≢ n) × (lookup m s ≡ none)
Unseen_one m n s h = let e = lookup-insert m n tt s in ground (arith, e)

Unseen-insert :
    (n : Bytes) (ns : List Bytes) (s : SeenHosts)
    → Unseen (insert n tt s) ns
    → All (λ (m : Bytes). m ≢ n) ns × Unseen s ns
Unseen-insert n [] s h = (tt, tt)
Unseen-insert n (m ∷ ns) s (h, hs) =
    let (a, b) = Unseen_one m n s h in
    let (as_, bs) = Unseen-insert n ns s hs in ((a, as_), (b, bs))

insert-Unseen :
    (n : Bytes) (ns : List Bytes) (s : SeenHosts)
    → All (λ (m : Bytes). m ≢ n) ns
    → Unseen s ns
    → Unseen (insert n tt s) ns
insert-Unseen n [] s a h = tt
insert-Unseen n (m ∷ ns) s (a, as_) (h, hs) =
    let e = lookup-insert m n tt s in (ground (arith, e), insert-Unseen n ns s as_ hs)

abbrev pub Filled : Bytes → Type 0
Filled s = is_blank s ≡ false

pub New-Distinct :
    (ns : List Bytes) (s : SeenHosts) → New ns s → All Filled ns × Distinct ns × Unseen s ns
unfolding New
New-Distinct [] s h = (tt, tt, tt)
New-Distinct (n ∷ ns) s (a, b, h) =
    let (f, d, u) = New-Distinct ns (insert n tt s) h in
    let (apart, u') = Unseen-insert n ns s u in ((a, f), (apart, d), (b, u'))

pub Distinct-New :
    (ns : List Bytes) (s : SeenHosts) → All Filled ns → Distinct ns → Unseen s ns → New ns s
unfolding New
Distinct-New [] s f d u = tt
Distinct-New (n ∷ ns) s (a, f) (apart, d) (b, u) =
    (a, b, Distinct-New ns (insert n tt s) f d (insert-Unseen n ns s apart u))

pub Unseen-nil : (ns : List Bytes) → Unseen [] ns
Unseen-nil [] = tt
Unseen-nil (n ∷ ns) = (lookup-nil n, Unseen-nil ns)
