-- ===== src/Awg/Netstack/Contents.antt =====
-- The packets that are on their way through the queue, and those that have passed it.
use awgsocks.Base.{
  Bool, ◌&&◌, if◌then◌else◌, ℕ, zero, suc, ◌≡◌, ◌⊎◌, refl, sym, ap, ◌∙◌, true, List, [], ◌∷◌, ◌++◌,
  Option, none, some, length, take, drop, ltb, leb, arith, map, append_assoc, if-case, drop-append,
  take-append, length-take, leb→le, inl, inr,
}
use awgsocks.Awg.Netstack.{
  Packet, Reader, taking, reading, offering, over, Slot, Call, ReadError, too_big, inner, closed,
  Answer, has_packet, brings, Event, given, returned, BatchTun, deliver, within,
}

-- What the device finds in a buffer that was filled at this offset.
abbrev pub found : ℕ → Slot → Packet
found offset s = take s.size (drop offset s.buf)

abbrev pub filled_in : Option Call → List Packet
filled_in none = []
filled_in (some c) = map (found c.offset) c.filled

-- The buffers of the call under way reach to its offset.
abbrev pub HasRoom : Option Call → Type 0
HasRoom none = Unit
HasRoom (some c) = within c.offset c.room ≡ true

module _ {ℓ} {E : Type ℓ} where
  -- The packet that the error of a `Read` is about.
  abbrev pub refused : Option (ReadError E) → List Packet
  refused none = []
  refused (some (too_big p)) = p ∷ []
  refused (some (inner e)) = []
  refused (some closed) = []

  -- The packets that the wrapped device has handed over.
  abbrev pub given_by : List (Event E) → List Packet
  given_by [] = []
  given_by (given p ∷ seen) = p ∷ given_by seen
  given_by (returned offset filled failure ∷ seen) = given_by seen

  -- The packets that the calls of `Read` have returned, or reported as too big.
  abbrev pub handed_on : List (Event E) → List Packet
  handed_on [] = []
  handed_on (given p ∷ seen) = handed_on seen
  handed_on (returned offset filled failure ∷ seen) =
      map (found offset) filled ++ (refused failure ++ handed_on seen)

  abbrev pub held : Reader E → List Packet
  held taking = []
  held reading = []
  held (offering p e) = p ∷ []
  held (over none) = []
  held (over (some p)) = p ∷ []

  -- The packet that the reader holds, and waits to queue.
  abbrev pub offered : Reader E → List Packet
  offered taking = []
  offered reading = []
  offered (offering p e) = p ∷ []
  offered (over left) = []

  -- The packet that a reader that is over has dropped.
  abbrev pub dropped : Reader E → List Packet
  dropped taking = []
  dropped reading = []
  dropped (offering p e) = []
  dropped (over none) = []
  dropped (over (some p)) = p ∷ []

  held_lem : (r : Reader E) → held r ≡ offered r ++ dropped r
  held_lem taking = refl
  held_lem reading = refl
  held_lem (offering p e) = refl
  held_lem (over none) = refl
  held_lem (over (some p)) = refl

  -- The packets on their way, oldest first.
  abbrev pub on_its_way : BatchTun E → List Packet
  on_its_way t = filled_in t.call ++ (t.queue ++ offered t.reader)

  -- These, and the one that was dropped.
  abbrev pub contents : BatchTun E → List Packet
  contents t = filled_in t.call ++ (t.queue ++ held t.reader)

brings-cases {ℓ} :
    (E : Type ℓ) (n : ℕ) (p : Packet)
    → given_by (map {B = Event E} given (brings n p))
      ≡ (if ltb 0 n && ltb 0 (length p) then p ∷ [] else [])
brings-cases E zero p = refl
brings-cases E (suc n) [] = ground arith
brings-cases E (suc n) (c ∷ p) = ground arith

handed_on-given {ℓ} :
    (E : Type ℓ) (n : ℕ) (p : Packet) → handed_on (map {B = Event E} given (brings n p)) ≡ []
handed_on-given E zero p = refl
handed_on-given E (suc n) [] = refl
handed_on-given E (suc n) (c ∷ p) = refl

module _ {ℓ} {E : Type ℓ} where
  pub contents_lem : (t : BatchTun E) → contents t ≡ on_its_way t ++ dropped t.reader
  contents_lem t =
      ap (λ l. filled_in t.call ++ (t.queue ++ l)) (held_lem t.reader)
      ∙ ap (λ l. filled_in t.call ++ l) (sym (append_assoc t.queue _ _))
      ∙ sym (append_assoc (filled_in t.call) _ _)

  -- What an answer brings is what the reader keeps of it.
  pub answered_lem :
      (a : Answer E) (b : Bool) (before after : List Packet)
      → has_packet a ≡ b
      → before ++ (if b then a.packet ∷ [] else []) ≡ after
      → before ++ given_by (map {B = Event E} given (brings a.count a.packet))
        ≡ handed_on (map {B = Event E} given (brings a.count a.packet)) ++ after
  answered_lem a b before after keeps h =
      ap (λ l. before ++ l)
        (brings-cases E a.count a.packet ∙ ap (λ c. if c then a.packet ∷ [] else []) keeps)
      ∙ h
      ∙ sym (ap (λ l. l ++ after) (handed_on-given E a.count a.packet))

-- Either the packet does not fit, or the device finds it in its buffer.
pub deliver-cases :
    (offset : ℕ) (s : Slot) (p : Packet)
    → leb offset (length s.buf) ≡ true
    → (deliver offset s p ≡ none)
      ⊎ ((s' : Slot) × (deliver offset s p ≡ some s') × (found offset s' ≡ p))
unfolding deliver
deliver-cases offset s p h =
    let at = length-take offset s.buf (leb→le offset (length s.buf) h) in
    if-case (λ o. (o ≡ none) ⊎ ((s' : Slot) × (o ≡ some s') × (found offset s' ≡ p)))
      (ltb (length (drop offset s.buf)) (length p)) none (some _) (λ e. inl refl)
      (λ e. inr (
        _,
        refl,
        ap (take (length p)) (drop-append (take offset s.buf) _ offset at)
            ∙ take-append p (drop (length p) (drop offset s.buf)) (length p) refl,
      ))

pub within-take :
    (offset n : ℕ) (ss : List Slot) → within offset ss ≡ true → within offset (take n ss) ≡ true
within-take offset zero ss h = refl
within-take offset (suc n) [] h = refl
within-take offset (suc n) (s ∷ ss) h = ground (arith, within-take offset n ss)

pub map-append {ℓ κ} :
    {A : Type ℓ} {B : Type κ} (f : A → B) (xs ys : List A) → map f (xs ++ ys) ≡ map f xs ++ map f ys
map-append f [] ys = refl
map-append f (x ∷ xs) ys = rw (map-append f xs ys)

module _ {ℓ} {E : Type ℓ} where
  pub given_by-append :
      (seen later : List (Event E)) → given_by (seen ++ later) ≡ given_by seen ++ given_by later
  given_by-append [] later = refl
  given_by-append (given p ∷ seen) later = rw (given_by-append seen later)
  given_by-append (returned offset filled failure ∷ seen) later = given_by-append seen later

  pub handed_on-append :
      (seen later : List (Event E)) → handed_on (seen ++ later) ≡ handed_on seen ++ handed_on later
  handed_on-append [] later = refl
  handed_on-append (given p ∷ seen) later = handed_on-append seen later
  handed_on-append (returned offset filled failure ∷ seen) later =
      simp (handed_on-append seen later, append_assoc)

-- What two stretches conserve, both together do.
pub chain {ℓ} :
    {A : Type ℓ} (c1 c2 c3 g1 g2 h1 h2 : List A)
    → c1 ++ g1 ≡ h1 ++ c2
    → c2 ++ g2 ≡ h2 ++ c3
    → c1 ++ (g1 ++ g2) ≡ (h1 ++ h2) ++ c3
chain c1 c2 c3 g1 g2 h1 h2 p q =
    sym (append_assoc c1 g1 g2)
    ∙ ap (λ l. l ++ g2) p
    ∙ append_assoc h1 c2 g2
    ∙ ap (λ l. h1 ++ l) q
    ∙ sym (append_assoc h1 h2 c3)
