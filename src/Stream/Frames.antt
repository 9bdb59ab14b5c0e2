-- ===== src/Stream/Frames.antt =====
-- The slices that travel in a stream: a little-endian u32 length, then the data.
use libp2p_transport_veilid.Prelude.{
  ℕ, ◌+◌, ◌*◌, ◌/◌, ◌%◌, ◌^◌, ◌<◌, ◌≤◌, ◌≡◌, refl, dec_le, sym, ap, ap₂, ◌∙◌, Bool, true, false,
  List, [], ◌∷◌, ◌++◌, map, flatten, append_assoc, append-nil, u32, length, take, drop, take-append,
  drop-append, All, arith,
}
use libp2p_transport_veilid.External.{Bytes}

-- `u32::to_le_bytes` and `u32::from_le_bytes`.
abbrev pub to_le_bytes : ℕ → Bytes
to_le_bytes n = (n % 256) ∷ (n / 256 % 256) ∷ (n / 65536 % 256) ∷ (n / 16777216 % 256) ∷ []

abbrev pub from_le_bytes : ℕ → ℕ → ℕ → ℕ → ℕ
from_le_bytes b0 b1 b2 b3 = b0 + 256 * b1 + 65536 * b2 + 16777216 * b3

-- What one write puts on the wire: `data_len.to_le_bytes()`, then the data.
unfoldable pub frame : Bytes → Bytes
frame bytes = to_le_bytes (u32 (length bytes)) ++ bytes

unfoldable pub frames : List Bytes → Bytes
unfolding frame flatten
frames slices = flatten (map frame slices)

pub from_le_bytes-to_le_bytes :
    (n : ℕ)
    → n < 2 ^ 32
    → from_le_bytes (n % 256) (n / 256 % 256) (n / 65536 % 256) (n / 16777216 % 256) ≡ n
from_le_bytes-to_le_bytes n h = omega arith

-- Every slice's length fits its header.
abbrev pub Fits : List Bytes → Type 0
Fits = All λ bytes. length bytes < 2 ^ 32

-- The buffer begins with no complete slice: it is shorter than a header, or than the slice that
-- its header announces.
abbrev pub IsIncomplete : Bytes → Type 0
IsIncomplete (b0 ∷ b1 ∷ b2 ∷ b3 ∷ rest) = length rest < from_le_bytes b0 b1 b2 b3
IsIncomplete _ = Unit

-- One, two or three bytes: part of a header.
abbrev pub is_short_header : Bytes → Bool
is_short_header [] = false
is_short_header (b0 ∷ b1 ∷ b2 ∷ b3 ∷ rest) = false
is_short_header _ = true

pub frames-cons :
    (bytes : Bytes) (slices : List Bytes) (rest : Bytes)
    → frames (bytes ∷ slices) ++ rest ≡ frame bytes ++ (frames slices ++ rest)
unfolding frames
frames-cons bytes slices rest = append_assoc (frame bytes) (frames slices) rest

pub frames-append : (xs ys : List Bytes) → frames (xs ++ ys) ≡ frames xs ++ frames ys
unfolding frames
frames-append [] ys = refl
frames-append (x ∷ xs) ys =
    rw (frames-append xs ys) (sym (append_assoc (frame x) (frames xs) (frames ys)))

pub length-frame : (bytes : Bytes) → length (frame bytes) ≡ length bytes + 4
unfolding frame
length-frame bytes = omega arith

cons_inj {ℓ} : {A : Type ℓ} {x y : A} {xs ys : List A} → x ∷ xs ≡ y ∷ ys → (x ≡ y) × (xs ≡ ys)
cons_inj h = (cc, cc)

-- A header tells where its slice ends.
pub frame_inj :
    (x y xs ys : Bytes)
    → length x < 2 ^ 32
    → length y < 2 ^ 32
    → frame x ++ xs ≡ frame y ++ ys
    → (x ≡ y) × (xs ≡ ys)
unfolding frame
frame_inj x y xs ys hx hy h =
    let (h0, t0) = cons_inj h in
    let (h1, t1) = cons_inj t0 in
    let (h2, t2) = cons_inj t1 in
    let (h3, t3) = cons_inj t2 in
    let same : length x ≡ length y = omega arith in
    (
      sym (take-append x xs) ∙ ap₂ take same t3 ∙ take-append y ys,
      sym (drop-append x xs) ∙ ap₂ drop same t3 ∙ drop-append y ys,
    )

append_split {ℓ} :
    {A : Type ℓ} (us xs ys vs : List A)
    → xs ++ ys ≡ us ++ vs
    → length us ≤ length xs
    → (m : List A) × (xs ≡ us ++ m) × (m ++ ys ≡ vs)
append_split [] xs ys vs h le = (xs, refl, h)
append_split (u ∷ us) [] ys vs h le = elim le [ ]
append_split (u ∷ us) (x ∷ xs) ys vs h le =
    let (m, front, back) = append_split us xs ys vs (cons_inj h).1 (omega arith) in
    (m, cc (cons_inj h).0, back)

-- What a prefix of a framed text holds: whole slices, and an incomplete rest.
pub record Split (slices : List Bytes) (front : Bytes) : Type 0 where
  pub whole : List Bytes
  pub more : List Bytes
  pub rest : Bytes
  pub joined : whole ++ more ≡ slices
  pub cut : front ≡ frames whole ++ rest
  pub incomplete : IsIncomplete rest

none_whole : (slices : List Bytes) (front : Bytes) → IsIncomplete front → Split slices front
unfolding frames
none_whole slices front h = record {
  whole = [];
  more = slices;
  rest = front;
  joined = refl;
  cut = refl;
  incomplete = h;
}

-- What the first four bytes say, where a framed slice begins.
header_split :
    (a b c d : ℕ) (front back s tail : Bytes)
    → length s < 2 ^ 32
    → a ∷ b ∷ c ∷ d ∷ (front ++ back) ≡ frame s ++ tail
    → (from_le_bytes a b c d ≡ length s)
      × (front ++ back ≡ s ++ tail)
      × ((m : Bytes) → front ≡ s ++ m → a ∷ b ∷ c ∷ d ∷ front ≡ frame s ++ m)
unfolding frame
header_split a b c d front back s tail fits h =
    let (h0, t0) = cons_inj h in
    let (h1, t1) = cons_inj t0 in
    let (h2, t2) = cons_inj t1 in let (h3, t3) = cons_inj t2 in (omega arith, t3, λ m e. cc)

pub frames-Split :
    (slices : List Bytes) (front back : Bytes)
    → Fits slices
    → front ++ back ≡ frames slices
    → Split slices front
unfolding frames
frames-Split [] [] back fits h = none_whole [] [] tt
frames-Split [] (b ∷ front) back fits h = cc
frames-Split (s ∷ slices) [] back fits h = none_whole (s ∷ slices) [] tt
frames-Split (s ∷ slices) (a ∷ []) back fits h = none_whole (s ∷ slices) (a ∷ []) tt
frames-Split (s ∷ slices) (a ∷ b ∷ []) back fits h = none_whole (s ∷ slices) (a ∷ b ∷ []) tt
frames-Split (s ∷ slices) (a ∷ b ∷ c ∷ []) back fits h = none_whole (s ∷ slices) (a ∷ b ∷ c ∷ []) tt
frames-Split (s ∷ slices) (a ∷ b ∷ c ∷ d ∷ front) back fits h =
    let (size, same, joined) =
      header_split a b c d front back s (frames slices) fits.0 (
        h ∙ sym (append-nil _) ∙ frames-cons s slices [] ∙ ap (λ t. frame s ++ t) (append-nil _)) in
    elim (dec_le (length s) (length front)) [
      | no short ↦ none_whole (s ∷ slices) (a ∷ b ∷ c ∷ d ∷ front) (omega arith)
      | yes le ↦
          let (m, e, tail) = append_split s front back (frames slices) same le in
          let r = frames-Split slices m back fits.1 tail in
          record {
            whole = s ∷ r.whole;
            more = r.more;
            rest = r.rest;
            joined = ap (λ l. s ∷ l) r.joined;
            cut = joined m e ∙ ap (λ t. frame s ++ t) r.cut ∙ sym (frames-cons s r.whole r.rest);
            incomplete = r.incomplete;
          }
    ]
