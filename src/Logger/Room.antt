-- ===== src/Logger/Room.antt =====
-- The growth of the event buffers of template_cpp/src/src/logger.c.
use cs451_2021_project.Base.{
  ℕ, zero, suc, ◌+◌, ◌-◌, ◌^◌, ◌≡◌, ◌≤◌, ◌<◌, refl, ap, List, [], ◌∷◌, ◌++◌, Option, none, some,
  arith, length, take, leb, Bool-cases, inl, inr, length-append,
}
use cs451_2021_project.Logger.{
  EventLog, realloc_events, make_room, check_available_size, log_line, print_line, safety_size,
}

-- The text and its terminating 0 lie within the buffer, whose size cannot wrap around yet.
abbrev pub Fits : EventLog → Type 0
Fits events = (length events.text < events.size) × (events.size < 2 ^ 63)

abbrev Roomy : EventLog → ℕ → Option EventLog → Type 0
Roomy events needed none = ⊥
Roomy events needed (some grown) =
    (grown.text ≡ events.text) × (needed + length events.text ≤ grown.size) × (grown.size < 2 ^ 63)

make_room-Roomy :
    (fuel : ℕ) (events : EventLog) (needed : ℕ)
    → Fits events
    → length events.text + needed < 2 ^ 62
    → length events.text + needed < events.size + fuel
    → 1 ≤ fuel
    → Roomy events needed (make_room fuel events needed)
unfolding make_room realloc_events
make_room-Roomy zero events needed f b h p = absurd (omega arith)
make_room-Roomy (suc fuel) events needed f b h p =
    elim (Bool-cases (leb needed (events.size - length events.text))) [
      | inl enough ↦ rw enough (refl, ground arith, f.1)
      | inr short ↦ rw short (
          make_room-Roomy fuel (realloc_events events) needed (ground arith) b (ground arith)
            (ground arith))
    ]

take_more : (xs : List ℕ) (n : ℕ) → length xs ≤ n → take n xs ≡ xs
take_more [] zero h = refl
take_more [] (suc n) h = refl
take_more (x ∷ xs) zero h = absurd (omega arith)
take_more (x ∷ xs) (suc n) h = ap (λ l. x ∷ l) (take_more xs n (omega arith))

print_line-Fits :
    (events : EventLog) (needed : ℕ) (line : List ℕ) (made : Option EventLog)
    → length line < needed
    → Roomy events needed made
    → (e : EventLog) × (print_line line made ≡ some e) × (e.text ≡ events.text ++ line) × Fits e
print_line-Fits events needed line none h r = absurd r
print_line-Fits events needed line (some grown) h r =
    let all = take_more line (grown.size - length grown.text - 1) (omega (arith, ap length r.0)) in
    (
      record grown { text = grown.text ++ take (grown.size - length grown.text - 1) line },
      refl,
      rw (all, r.0) refl,
      (rw all (omega (arith, ap length r.0, length-append grown.text line)), r.2),
    )

-- A line of at most 63 bytes more than its message is appended to the text whole.
pub log_line-Fits :
    (events : EventLog) (buffer line : List ℕ)
    → Fits events
    → length events.text + (length buffer + safety_size) < 2 ^ 62
    → length line < length buffer + safety_size
    → (e : EventLog) × (log_line events buffer line ≡ some e)
      × (e.text ≡ events.text ++ line)
      × Fits e
unfolding log_line check_available_size
log_line-Fits events buffer line f b h =
    print_line-Fits events (length buffer + safety_size) line (check_available_size events buffer) h
      (make_room-Roomy _ events (length buffer + safety_size) f b (omega (arith, f.0))
        (omega arith))
