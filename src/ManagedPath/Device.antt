-- ===== src/ManagedPath/Device.antt =====
-- The device names of Windows, which no entry of a portable directory may have.
use lib_auto_updater.Base.{
  ℕ, ◌≤◌, ◌≡◌, ◌↔◌, ◌⊎◌, refl, sym, ap, ap₂, subst, true, false, ◌||◌, ◌&&◌, Bool-cases, inl, inr,
  [], ◌∷◌, ◌++◌, some, none, Bool, Option, arith, map, leb,
}
use lib_auto_updater.Base.Text.{Bytes, codes, bytes_eq, bytes_eq_iff}
use lib_auto_updater.Base.Text.Split.{Lacks, Cuts, cut, cut-Cuts, cut-append, cut-none}
use lib_auto_updater.ManagedPath.{
  to_lower, to_upper, is_one_of, is_port_name, is_windows_device_name,
}

-- CON, PRN, AUX, NUL, CLOCK$, COM1 to COM9 and LPT1 to LPT9, in small letters.
abbrev pub IsReserved : Bytes → Type 0
IsReserved name =
    (name ≡ codes "con")
    ⊎ (name ≡ codes "prn")
    ⊎ (name ≡ codes "aux")
    ⊎ (name ≡ codes "nul")
    ⊎ (name ≡ codes "clock$")
    ⊎ ((d : ℕ) × (b'1' ≤ d)
        × (d ≤ b'9')
        × ((name ≡ codes "com" ++ d ∷ []) ⊎ (name ≡ codes "lpt" ++ d ∷ [])))

-- A reserved name, in any case, alone or with an extension.
abbrev pub IsDevice : Bytes → Type 0
IsDevice s =
    (base : Bytes) × IsReserved (map to_lower base)
    × ((s ≡ base) ⊎ ((rest : Bytes) × (s ≡ base ++ b'.' ∷ rest)))

letter_lower : (c d : ℕ) → to_upper c ≡ to_upper d → to_lower c ≡ to_lower d
unfolding to_upper to_lower
letter_lower c d h = ground arith

letter_upper : (c d : ℕ) → to_lower c ≡ to_lower d → to_upper c ≡ to_upper d
unfolding to_upper to_lower
letter_upper c d h = ground arith

lower_of_upper : (s t : Bytes) → map to_upper s ≡ map to_upper t → map to_lower s ≡ map to_lower t
lower_of_upper [] [] h = refl
lower_of_upper [] (d ∷ t) h = cc
lower_of_upper (c ∷ s) [] h = cc
lower_of_upper (c ∷ s) (d ∷ t) h =
    ap₂ ◌∷◌ (letter_lower c d (ground arith)) (lower_of_upper s t (ground arith))

upper_of_lower : (s t : Bytes) → map to_lower s ≡ map to_lower t → map to_upper s ≡ map to_upper t
upper_of_lower [] [] h = refl
upper_of_lower [] (d ∷ t) h = cc
upper_of_lower (c ∷ s) [] h = cc
upper_of_lower (c ∷ s) (d ∷ t) h =
    ap₂ ◌∷◌ (letter_upper c d (ground arith)) (upper_of_lower s t (ground arith))

-- A name in capitals is tested as the name in small letters.
named :
    (s t : Bytes)
    → (bytes_eq (map to_upper s) (map to_upper t) ≡ true) ↔ (map to_lower s ≡ map to_lower t)
named s t = (
  λ h. lower_of_upper s t ((bytes_eq_iff (map to_upper s) (map to_upper t)).0 h),
  λ h. (bytes_eq_iff (map to_upper s) (map to_upper t)).1 (upper_of_lower s t h),
)

abbrev IsPort : Bytes → Type 0
IsPort name =
    (d : ℕ) × (b'1' ≤ d)
    × (d ≤ b'9')
    × ((name ≡ codes "com" ++ d ∷ []) ⊎ (name ≡ codes "lpt" ++ d ∷ []))

digit_up :
    (d : ℕ)
    → (leb b'1' (to_upper d) && leb (to_upper d) b'9') ≡ true
    → (b'1' ≤ to_lower d) × (to_lower d ≤ b'9')
unfolding to_upper to_lower
digit_up d h = (ground arith, ground arith)

digit_down :
    (d : ℕ)
    → b'1' ≤ to_lower d
    → to_lower d ≤ b'9'
    → (leb b'1' (to_upper d) && leb (to_upper d) b'9') ≡ true
unfolding to_upper to_lower
digit_down d h k = ground arith

is_port_name-IsPort : (s : Bytes) → is_port_name (map to_upper s) ≡ true → IsPort (map to_lower s)
unfolding is_port_name to_upper to_lower
is_port_name-IsPort (a ∷ b ∷ c ∷ d ∷ []) h =
    let (low, high) = digit_up d (ground arith) in
    elim (Bool-cases (bytes_eq (map to_upper (a ∷ b ∷ c ∷ [])) (codes "COM"))) [
      | inl e ↦ (
        to_lower d,
        low,
        high,
        inl (ap (λ t. t ++ to_lower d ∷ []) ((named (a ∷ b ∷ c ∷ []) (codes "com")).0 e)),
      )
      | inr e ↦
          let port : bytes_eq (map to_upper (a ∷ b ∷ c ∷ [])) (codes "LPT") ≡ true = ground arith in
          (
            to_lower d,
            low,
            high,
            inr (ap (λ t. t ++ to_lower d ∷ []) ((named (a ∷ b ∷ c ∷ []) (codes "lpt")).0 port)),
          )
    ]
is_port_name-IsPort s h = cc

port_test_lem :
    (a b c d : ℕ)
    → b'1' ≤ to_lower d
    → to_lower d ≤ b'9'
    → (bytes_eq (map to_upper (a ∷ b ∷ c ∷ [])) (codes "COM")
        || bytes_eq (map to_upper (a ∷ b ∷ c ∷ [])) (codes "LPT"))
      ≡ true
    → is_port_name (map to_upper (a ∷ b ∷ c ∷ d ∷ [])) ≡ true
unfolding is_port_name
port_test_lem a b c d lo hi h = ground (arith, digit_down d lo hi, h)

IsPort-is_port_name : (s : Bytes) → IsPort (map to_lower s) → is_port_name (map to_upper s) ≡ true
unfolding to_lower to_upper
IsPort-is_port_name (a ∷ b ∷ c ∷ d ∷ []) (x, lo, hi, inl e) =
    let name = (named (a ∷ b ∷ c ∷ []) (codes "com")).1 (ground arith) in
    port_test_lem a b c d (ground arith) (ground arith) (rw name refl)
IsPort-is_port_name (a ∷ b ∷ c ∷ d ∷ []) (x, lo, hi, inr e) =
    let name = (named (a ∷ b ∷ c ∷ []) (codes "lpt")).1 (ground arith) in
    port_test_lem a b c d (ground arith) (ground arith) (either _ name)
  where
    either : (p : Bool) {q : Bool} → q ≡ true → (p || q) ≡ true
    either p h = ground arith
IsPort-is_port_name s (x, lo, hi, inl e) = cc
IsPort-is_port_name s (x, lo, hi, inr e) = cc

abbrev reserved_test : Bytes → Bool
reserved_test base =
    is_one_of base (codes "CON" ∷ codes "PRN" ∷ codes "AUX" ∷ codes "NUL" ∷ codes "CLOCK$" ∷ [])
    || is_port_name base

reserved_test-IsReserved :
    (s : Bytes) → reserved_test (map to_upper s) ≡ true → IsReserved (map to_lower s)
unfolding is_one_of to_upper to_lower
reserved_test-IsReserved s h =
    let upper = map to_upper s in
    elim (Bool-cases (bytes_eq upper (codes "CON"))) [
      | inl e ↦ inl ((named s (codes "con")).0 e)
      | inr n1 ↦ elim (Bool-cases (bytes_eq upper (codes "PRN"))) [
        | inl e ↦ inr (inl ((named s (codes "prn")).0 e))
        | inr n2 ↦ elim (Bool-cases (bytes_eq upper (codes "AUX"))) [
          | inl e ↦ inr (inr (inl ((named s (codes "aux")).0 e)))
          | inr n3 ↦ elim (Bool-cases (bytes_eq upper (codes "NUL"))) [
            | inl e ↦ inr (inr (inr (inl ((named s (codes "nul")).0 e))))
            | inr n4 ↦ elim (Bool-cases (bytes_eq upper (codes "CLOCK$"))) [
              | inl e ↦ inr (inr (inr (inr (inl ((named s (codes "clock$")).0 e)))))
              | inr n5 ↦ inr (inr (inr (inr (inr (is_port_name-IsPort s (ground arith))))))
            ]
          ]
        ]
      ]
    ]

IsReserved-reserved_test :
    (s : Bytes) → IsReserved (map to_lower s) → reserved_test (map to_upper s) ≡ true
unfolding is_one_of to_upper to_lower
IsReserved-reserved_test s (inl e) = let k = (named s (codes "con")).1 e in ground arith
IsReserved-reserved_test s (inr (inl e)) = let k = (named s (codes "prn")).1 e in ground arith
IsReserved-reserved_test s (inr (inr (inl e))) = let k = (named s (codes "aux")).1 e in ground arith
IsReserved-reserved_test s (inr (inr (inr (inl e)))) =
    let k = (named s (codes "nul")).1 e in ground arith
IsReserved-reserved_test s (inr (inr (inr (inr (inl e))))) =
    let k = (named s (codes "clock$")).1 e in ground arith
IsReserved-reserved_test s (inr (inr (inr (inr (inr h))))) =
    let k = IsPort-is_port_name s h in ground arith

IsReserved-Lacks : (name : Bytes) → IsReserved name → Lacks b'.' name
IsReserved-Lacks name (inl e) = rw e (ground arith)
IsReserved-Lacks name (inr (inl e)) = rw e (ground arith)
IsReserved-Lacks name (inr (inr (inl e))) = rw e (ground arith)
IsReserved-Lacks name (inr (inr (inr (inl e)))) = rw e (ground arith)
IsReserved-Lacks name (inr (inr (inr (inr (inl e))))) = rw e (ground arith)
IsReserved-Lacks name (inr (inr (inr (inr (inr (d, lo, hi, inl e)))))) = rw e (ground arith)
IsReserved-Lacks name (inr (inr (inr (inr (inr (d, lo, hi, inr e)))))) = rw e (ground arith)

lower-Lacks : (s : Bytes) → Lacks b'.' (map to_lower s) → Lacks b'.' s
unfolding to_lower
lower-Lacks [] h = tt
lower-Lacks (c ∷ cs) h = (ground (arith, h.0), lower-Lacks cs h.1)

is_windows_device_name-IsDevice : (s : Bytes) → is_windows_device_name s ≡ true → IsDevice s
unfolding is_windows_device_name
is_windows_device_name-IsDevice s h = (
  (cut b'.' s).0,
  reserved_test-IsReserved (cut b'.' s).0 h,
  parts (cut b'.' s) (cut-Cuts b'.' s),
)
  where
    parts :
        (r : Bytes × Option Bytes)
        → Cuts b'.' s r
        → (s ≡ r.0) ⊎ ((rest : Bytes) × (s ≡ r.0 ++ b'.' ∷ rest))
    parts (p, none) e = inl e
    parts (p, some rest) e = inr (rest, e)

IsDevice-is_windows_device_name : (s : Bytes) → IsDevice s → is_windows_device_name s ≡ true
unfolding is_windows_device_name
IsDevice-is_windows_device_name s (base, h, tail) =
    let k = lower-Lacks base (IsReserved-Lacks (map to_lower base) h) in
    subst (λ b. reserved_test (map to_upper b) ≡ true) (sym (first k tail))
      (IsReserved-reserved_test base h)
  where
    first :
        Lacks b'.' base
        → (s ≡ base) ⊎ ((rest : Bytes) × (s ≡ base ++ b'.' ∷ rest))
        → (cut b'.' s).0 ≡ base
    first k (inl e) = rw (e, cut-none b'.' base k)
    first k (inr (rest, e)) = rw (e, cut-append b'.' base rest k)

-- The test of the source finds exactly the device names.
pub is_windows_device_name_iff : (s : Bytes) → (is_windows_device_name s ≡ false) ↔ ¬ IsDevice s
is_windows_device_name_iff s = (
  λ h d. let k = IsDevice-is_windows_device_name s d in ground arith,
  λ h. elim (Bool-cases (is_windows_device_name s)) [
    | inl e ↦ absurd (h (is_windows_device_name-IsDevice s e))
    | inr e ↦ e
  ],
)
