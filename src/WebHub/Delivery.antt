-- ===== src/WebHub/Delivery.antt =====
-- What one browser receives of the events (dashboard/internal/webhub/webhub.go).
use mathlib.Core.Path.{subst}
use mathlib.Core.List.{append_assoc}
use uptime_mesh.Prelude.{
  ◌≤◌, ◌≡◌, refl, sym, not, ◌&&◌, List, [], ◌∷◌, ◌++◌, arith, ltb, length, length-append,
  Bool-cases, ◌⊎◌, inl, inr, String,
}
use uptime_mesh.WebHub.{
  WebEvent, Browser, new_browser, web_buffer_size, send_event, Writing, written_as, write_one,
  close_browser,
}

List-cases : {A : Type 0} (xs : List A) → (xs ≡ []) ⊎ ((y : A) × (ys : List A) × (xs ≡ y ∷ ys))
List-cases [] = inl refl
List-cases (y ∷ ys) = inr (y, ys, refl)

-- What happens to a connection.
pub data Happens : Type 0 where
  sends : WebEvent → Happens
  writes : Writing → Happens
  closes : Happens

pub happens : Browser → Happens → Browser
happens c (sends ev) = send_event c ev
happens c (writes how) = write_one c how
happens c closes = close_browser c

pub all_happens : Browser → List Happens → Browser
all_happens c [] = c
all_happens c (h ∷ hs) = all_happens (happens c h) hs

-- The events that were sent, in their order.
abbrev pub sent_in : List Happens → List WebEvent
sent_in [] = []
sent_in (sends ev ∷ hs) = ev ∷ sent_in hs
sent_in (writes how ∷ hs) = sent_in hs
sent_in (closes ∷ hs) = sent_in hs

-- The first list is the second with some of its elements left out.
pub data IsPartOf {A : Type 0} : List A → List A → Type 0 where
  nothing : IsPartOf [] []
  taken : (x : A) (xs ys : List A) → IsPartOf xs ys → IsPartOf (x ∷ xs) (x ∷ ys)
  skipped : (y : A) (xs ys : List A) → IsPartOf xs ys → IsPartOf xs (y ∷ ys)

module _ {A : Type 0} where
  nil-IsPartOf : (zs : List A) → IsPartOf [] zs
  nil-IsPartOf [] = nothing
  nil-IsPartOf (z ∷ zs) = skipped z [] zs (nil-IsPartOf zs)

  IsPartOf-more : (zs xs ys : List A) → IsPartOf xs ys → IsPartOf xs (ys ++ zs)
  IsPartOf-more zs _ _ nothing = nil-IsPartOf zs
  IsPartOf-more zs _ _ (taken x xs ys s) = taken x xs (ys ++ zs) (IsPartOf-more zs xs ys s)
  IsPartOf-more zs _ _ (skipped y xs ys s) = skipped y xs (ys ++ zs) (IsPartOf-more zs xs ys s)

  IsPartOf-both :
      (e : A) (xs ys : List A) → IsPartOf xs ys → IsPartOf (xs ++ (e ∷ [])) (ys ++ (e ∷ []))
  IsPartOf-both e _ _ nothing = taken e [] [] nothing
  IsPartOf-both e _ _ (taken x xs ys s) =
      taken x (xs ++ (e ∷ [])) (ys ++ (e ∷ [])) (IsPartOf-both e xs ys s)
  IsPartOf-both e _ _ (skipped y xs ys s) =
      skipped y (xs ++ (e ∷ [])) (ys ++ (e ∷ [])) (IsPartOf-both e xs ys s)

  IsPartOf-refl : (xs : List A) → IsPartOf xs xs
  IsPartOf-refl [] = nothing
  IsPartOf-refl (x ∷ xs) = taken x xs xs (IsPartOf-refl xs)

  IsPartOf-trans : (xs ys zs : List A) → IsPartOf xs ys → IsPartOf ys zs → IsPartOf xs zs
  IsPartOf-trans xs _ _ s nothing = s
  IsPartOf-trans xs _ _ s (skipped z ys zs t) = skipped z xs zs (IsPartOf-trans xs ys zs s t)
  IsPartOf-trans _ _ _ (taken y xs ys s) (taken _ _ zs t) =
      taken y xs zs (IsPartOf-trans xs ys zs s t)
  IsPartOf-trans _ _ _ (skipped y xs ys s) (taken _ _ zs t) =
      skipped y xs zs (IsPartOf-trans xs ys zs s t)

  -- One element less in the middle.
  IsPartOf-drop : (xs : List A) (y : A) (ys : List A) → IsPartOf (xs ++ ys) (xs ++ (y ∷ ys))
  IsPartOf-drop [] y ys = skipped y ys ys (IsPartOf-refl ys)
  IsPartOf-drop (x ∷ xs) y ys = taken x (xs ++ ys) (xs ++ (y ∷ ys)) (IsPartOf-drop xs y ys)

-- What the browser has received and what waits for it.
abbrev pub on_its_way : Browser → List WebEvent
on_its_way c = c.written ++ c.queue

send_event-IsPartOf :
    (c : Browser) (ev : WebEvent) (told : List WebEvent)
    → IsPartOf (on_its_way c) told
    → IsPartOf (on_its_way (send_event c ev)) (told ++ (ev ∷ []))
unfolding send_event
send_event-IsPartOf c ev told s =
    elim (Bool-cases (not c.is_closed && ltb (length c.queue) web_buffer_size)) [
      | inl p ↦
          let e : on_its_way (send_event c ev) ≡ on_its_way c ++ (ev ∷ []) =
            ground (arith, append_assoc c.written c.queue (ev ∷ [])) in
          subst (λ w. IsPartOf w (told ++ (ev ∷ []))) (sym e)
            (IsPartOf-both ev (on_its_way c) told s)
      | inr p ↦
          let e : on_its_way (send_event c ev) ≡ on_its_way c = ground arith in
          subst (λ w. IsPartOf w (told ++ (ev ∷ []))) (sym e)
            (IsPartOf-more (ev ∷ []) (on_its_way c) told s)
    ]

written_as-IsPartOf :
    (how : Writing) (c : Browser) (ev : WebEvent) (queue : List WebEvent)
    → IsPartOf (on_its_way (written_as how c ev queue)) (c.written ++ (ev ∷ queue))
unfolding written_as
written_as-IsPartOf Writing.written c ev queue =
    subst (λ w. IsPartOf w (c.written ++ (ev ∷ queue)))
      (sym (append_assoc c.written (ev ∷ []) queue)) (IsPartOf-refl (c.written ++ (ev ∷ queue)))
written_as-IsPartOf Writing.no_text c ev queue = IsPartOf-drop c.written ev queue
written_as-IsPartOf Writing.broken c ev queue = IsPartOf-drop c.written ev queue

write_one-cases :
    (c : Browser) (how : Writing)
    → (write_one c how ≡ c)
      ⊎ ((ev : WebEvent) × (queue : List WebEvent) × (c.queue ≡ ev ∷ queue)
          × (write_one c how ≡ written_as how c ev queue))
unfolding write_one
write_one-cases c how = elim (List-cases c.queue) [
  | inl n ↦ inl (ground (arith, n))
  | inr (ev, queue, n) ↦ elim (Bool-cases c.is_closed) [
    | inl k ↦ inl (ground (arith, n))
    | inr k ↦ inr (ev, queue, n, ground (arith, n))
  ]
]

write_one-IsPartOf :
    (c : Browser) (how : Writing) → IsPartOf (on_its_way (write_one c how)) (on_its_way c)
write_one-IsPartOf c how = elim (write_one-cases c how) [
  | inl e ↦
      subst (λ d. IsPartOf (on_its_way d) (on_its_way c)) (sym e) (IsPartOf-refl (on_its_way c))
  | inr (ev, queue, n, e) ↦
      subst (λ d. IsPartOf (on_its_way d) (on_its_way c)) (sym e)
        (subst (λ q. IsPartOf (on_its_way (written_as how c ev queue)) (c.written ++ q)) (sym n)
          (written_as-IsPartOf how c ev queue))
]

all_happens-keeps_IsPartOf :
    (hs : List Happens) (c : Browser) (told : List WebEvent)
    → IsPartOf (on_its_way c) told
    → IsPartOf (on_its_way (all_happens c hs)) (told ++ sent_in hs)
unfolding all_happens happens close_browser
all_happens-keeps_IsPartOf [] c told s = IsPartOf-more [] (on_its_way c) told s
all_happens-keeps_IsPartOf (sends ev ∷ hs) c told s =
    subst (IsPartOf (on_its_way (all_happens (send_event c ev) hs)))
      (append_assoc told (ev ∷ []) (sent_in hs))
      (all_happens-keeps_IsPartOf hs (send_event c ev) (told ++ (ev ∷ []))
        (send_event-IsPartOf c ev told s))
all_happens-keeps_IsPartOf (writes how ∷ hs) c told s =
    all_happens-keeps_IsPartOf hs (write_one c how) told (
      IsPartOf-trans (on_its_way (write_one c how)) (on_its_way c) told (write_one-IsPartOf c how)
        s)
all_happens-keeps_IsPartOf (closes ∷ hs) c told s =
    all_happens-keeps_IsPartOf hs (close_browser c) told s

written_as-queue :
    (how : Writing) (c : Browser) (ev : WebEvent) (queue : List WebEvent)
    → (written_as how c ev queue).queue ≡ queue
unfolding written_as
written_as-queue Writing.written c ev queue = refl
written_as-queue Writing.no_text c ev queue = refl
written_as-queue Writing.broken c ev queue = refl

write_one-bounded :
    (c : Browser) (how : Writing)
    → length c.queue ≤ web_buffer_size
    → length (write_one c how).queue ≤ web_buffer_size
write_one-bounded c how b = elim (write_one-cases c how) [
  | inl e ↦ ground (arith, e)
  | inr (ev, queue, n, e) ↦ ground (arith, n, e, written_as-queue how c ev queue)
]

happens-bounded :
    (c : Browser) (h : Happens)
    → length c.queue ≤ web_buffer_size
    → length (happens c h).queue ≤ web_buffer_size
unfolding happens send_event close_browser
happens-bounded c (sends ev) b = ground (arith, length-append c.queue (ev ∷ []))
happens-bounded c (writes how) b = write_one-bounded c how b
happens-bounded c closes b = b

all_happens-bounded :
    (hs : List Happens) (c : Browser)
    → length c.queue ≤ web_buffer_size
    → length (all_happens c hs).queue ≤ web_buffer_size
unfolding all_happens
all_happens-bounded [] c b = b
all_happens-bounded (h ∷ hs) c b = all_happens-bounded hs (happens c h) (happens-bounded c h b)

-- Whatever is sent to a new connection, whenever and with whatever outcome it is
-- written, and whether or not it is closed:
-- what the browser has received, followed by what waits for it, is a part of what was sent, in the
-- order of the sending and nothing twice; and no more than 32 events wait.
pub all_happens-IsPartOf :
    (hs : List Happens) (key : String)
    → IsPartOf (on_its_way (all_happens (new_browser key) hs)) (sent_in hs)
      × (length (all_happens (new_browser key) hs).queue ≤ web_buffer_size)
all_happens-IsPartOf hs key = (
  all_happens-keeps_IsPartOf hs (new_browser key) [] nothing,
  all_happens-bounded hs (new_browser key) (omega arith),
)
