-- ===== src/TcpServer/Places.antt =====
-- The places of the sockets of src/brutils/TcpServer/TcpServer.cpp in the list for `poll`.
use brutils.Base.{
  ℕ, ◌≤◌, ◌<◌, ◌≡◌, refl, ◌↔◌, Bool, true, false, Option, none, some, List, [], ◌∷◌, ltb, ◌==◌,
  arith, Bool-cases, inl, inr, ◌⊎◌, ◌∙◌, sym, ◌||◌, subst,
}
use brutils.TcpServer.{TcpServer, store, insert_index, add_to_socket_list, remove_from_socket_list}

unfoldable pub contains : ℕ → List ℕ → Bool
contains i [] = false
contains i (j ∷ js) = i == j || contains i js

-- A set's elements are in ascending order.
abbrev pub Above : ℕ → List ℕ → Type 0
Above i [] = Unit {0}
Above i (j ∷ js) = (i < j) × Above j js

abbrev pub Ascending : List ℕ → Type 0
Ascending [] = Unit {0}
Ascending (i ∷ is) = Above i is

-- Each socket is in the place that the map says, each taken place is in the map, and the set has the
-- places that are free, in order.
abbrev pub Placed : TcpServer → Type 0
Placed w =
    ((fd i : ℕ)
      → w.socket_fd_index fd ≡ some i
      → (1 ≤ i) × (i < w.max_connection_size) × (w.socket_list i ≡ some fd))
    × ((fd i : ℕ) → 1 ≤ i → w.socket_list i ≡ some fd → w.socket_fd_index fd ≡ some i)
    × ((i : ℕ)
        → (contains i w.empty_indices ≡ true)
          ↔ ((1 ≤ i) × (i < w.max_connection_size) × (w.socket_list i ≡ none)))
    × Ascending w.empty_indices

pub contains-Above : (i j : ℕ) (js : List ℕ) → Above j js → i ≤ j → contains i js ≡ false
unfolding contains
contains-Above i j [] h le = refl
contains-Above i j (k ∷ js) h le = ground (arith, contains-Above i k js h.1, h.0)

contains-insert_index :
    (i j : ℕ) (js : List ℕ) → contains i (insert_index j js) ≡ (i == j || contains i js)
unfolding contains insert_index
contains-insert_index i j [] = refl
contains-insert_index i j (k ∷ js) = ground (arith, contains-insert_index i j js)

insert_index-Above : (i j : ℕ) (js : List ℕ) → i < j → Above i js → Above i (insert_index j js)
unfolding insert_index
insert_index-Above i j [] l h = (l, tt)
insert_index-Above i j (k ∷ js) l h = elim (Bool-cases (ltb j k)) [
  | inl less ↦ rw less (l, (ground arith, h.1))
  | inr later ↦ elim (Bool-cases (j == k)) [
    | inl same ↦ rw (later, same) h
    | inr other ↦ rw (later, other) (h.0, insert_index-Above k j js (ground arith) h.1)
  ]
]

insert_index-Ascending : (j : ℕ) (js : List ℕ) → Ascending js → Ascending (insert_index j js)
unfolding insert_index
insert_index-Ascending j [] h = tt
insert_index-Ascending j (k ∷ js) h = elim (Bool-cases (ltb j k)) [
  | inl less ↦ rw less (ground arith, h)
  | inr later ↦ elim (Bool-cases (j == k)) [
    | inl same ↦ rw (later, same) h
    | inr other ↦ rw (later, other) (insert_index-Above k j js (ground arith) h)
  ]
]

Above-Ascending : (i : ℕ) (is : List ℕ) → Above i is → Ascending is
Above-Ascending i [] h = tt
Above-Ascending i (j ∷ is) h = h.1

insert_index-first : (i : ℕ) (is : List ℕ) → Above i is → insert_index i is ≡ i ∷ is
unfolding insert_index
insert_index-first i [] h = refl
insert_index-first i (j ∷ is) h = ground (arith, h.0)

first_free :
    (first : ℕ) (rest : List ℕ) (w : TcpServer)
    → w.empty_indices ≡ first ∷ rest
    → Placed w
    → (1 ≤ first) × (first < w.max_connection_size) × (w.socket_list first ≡ none)
unfolding contains
first_free first rest w e (placed, listed, free, ascending) =
    let spare : contains first w.empty_indices ≡ true = rw e (ground arith) in (free first).0 spare

-- With one more socket in the first free place.
add_to_socket_list-some :
    (fd first : ℕ) (rest : List ℕ) (w : TcpServer)
    → w.empty_indices ≡ first ∷ rest
    → add_to_socket_list fd w ≡ (
      true,
      record w {
        socket_list = store first (some fd) w.socket_list;
        socket_fd_index = store fd (some first) w.socket_fd_index;
        empty_indices = rest;
      },
    )
unfolding add_to_socket_list
add_to_socket_list-some fd first rest w e = rw e refl

remove_from_socket_list-some :
    (fd i : ℕ) (w : TcpServer)
    → w.socket_fd_index fd ≡ some i
    → remove_from_socket_list fd w ≡ (
      true,
      record w {
        socket_list = store i none w.socket_list;
        empty_indices = insert_index i w.empty_indices;
        socket_fd_index = store fd none w.socket_fd_index;
      },
    )
unfolding remove_from_socket_list
remove_from_socket_list-some fd i w e = rw (e, remove_from_socket_list) refl

add_to_socket_list-first :
    (fd first : ℕ) (rest : List ℕ) (w : TcpServer)
    → w.empty_indices ≡ first ∷ rest
    → Placed w
    → w.socket_fd_index fd ≡ none
    → Placed (record w {
      socket_list = store first (some fd) w.socket_list;
      socket_fd_index = store fd (some first) w.socket_fd_index;
      empty_indices = rest;
    })
unfolding contains
add_to_socket_list-first fd first rest w e h fresh =
    let (placed, listed, free, ascending) = h in
    let above : Above first rest = subst Ascending e ascending in
    let gone : contains first rest ≡ false = contains-Above first first rest above (omega arith) in
    let inside = first_free first rest w e h in
    (
      (λ fd' i k. ground (arith, placed fd' i, inside)),
      (λ fd' i le k. ground (arith, listed fd' i)),
      (λ i. ground (arith, free i, gone, e)),
      Above-Ascending first rest above,
    )

add_to_socket_list-nil :
    (fd : ℕ) (w : TcpServer) → w.empty_indices ≡ [] → add_to_socket_list fd w ≡ (false, w)
unfolding add_to_socket_list
add_to_socket_list-nil fd w e = ground arith

remove_from_socket_list-none :
    (fd : ℕ) (w : TcpServer)
    → w.socket_fd_index fd ≡ none
    → remove_from_socket_list fd w ≡ (false, w)
unfolding remove_from_socket_list
remove_from_socket_list-none fd w e = ground arith

-- Adding a socket that has no place, when the tables agree: they still agree; the call fails just when
-- no place is free, and then nothing changes; and after a success the socket has a place.
pub add_to_socket_list-Placed :
    (fd : ℕ) (w : TcpServer)
    → Placed w
    → w.socket_fd_index fd ≡ none
    → let (added, w') = add_to_socket_list fd w in
      Placed w'
      × ((added ≡ false × (w.empty_indices ≡ []) × (w' ≡ w))
          ⊎ (added ≡ true
              × ((i : ℕ) × (w'.socket_fd_index fd ≡ some i) × (w'.socket_list i ≡ some fd))))
add_to_socket_list-Placed fd w h fresh = go w.empty_indices refl
  where
    go :
        (is : List ℕ)
        → w.empty_indices ≡ is
        → let (added, w') = add_to_socket_list fd w in
          Placed w'
          × ((added ≡ false × (w.empty_indices ≡ []) × (w' ≡ w))
              ⊎ (added ≡ true
                  × ((i : ℕ) × (w'.socket_fd_index fd ≡ some i) × (w'.socket_list i ≡ some fd))))
    go [] e = rw (add_to_socket_list-nil fd w e) (h, inl (refl, e, refl))
    go (first ∷ rest) e = rw (add_to_socket_list-some fd first rest w e) (
      add_to_socket_list-first fd first rest w e h fresh,
      inr (refl, (first, ground arith, ground arith)),
    )

-- Removing a socket, when the tables agree: they still agree, and the socket has no place. Its place,
-- if it had one, is free again; the places of other sockets do not change.
pub remove_from_socket_list-Placed :
    (fd : ℕ) (w : TcpServer)
    → Placed w
    → let w' = (remove_from_socket_list fd w).1 in
      Placed w'
      × (w'.socket_fd_index fd ≡ none)
      × ((i : ℕ) → w.socket_fd_index fd ≡ some i → contains i w'.empty_indices ≡ true)
      × ((fd' : ℕ) → (fd == fd') ≡ false → w'.socket_fd_index fd' ≡ w.socket_fd_index fd')
remove_from_socket_list-Placed fd w h = go (w.socket_fd_index fd) refl
  where
    go :
        (o : Option ℕ)
        → w.socket_fd_index fd ≡ o
        → let w' = (remove_from_socket_list fd w).1 in
          Placed w'
          × (w'.socket_fd_index fd ≡ none)
          × ((i : ℕ) → w.socket_fd_index fd ≡ some i → contains i w'.empty_indices ≡ true)
          × ((fd' : ℕ) → (fd == fd') ≡ false → w'.socket_fd_index fd' ≡ w.socket_fd_index fd')
    go none e =
        rw (remove_from_socket_list-none fd w e)
          (h, e, (λ i k. absurd (ground (arith, e))), λ fd' ne. refl)
    go (some i) e =
        let (placed, listed, free, ascending) = h in
        rw (remove_from_socket_list-some fd i w e) (
          (
            (λ fd' j k. ground (arith, placed fd' j, placed fd i e, listed fd i)),
            (λ fd' j le k. ground (arith, listed fd' j, placed fd i e)),
            (λ j. ground (arith, free j, contains-insert_index j i w.empty_indices, placed fd i e)),
            insert_index-Ascending i w.empty_indices ascending,
          ),
          ground arith,
          (λ j k. ground (arith, contains-insert_index j i w.empty_indices, e)),
          λ fd' ne. ground arith,
        )

-- When the tables agree, adding a socket that has no place and removing it again leaves each of the
-- tables as it was.
remove_from_socket_list-add_to_socket_list :
    (fd : ℕ) (w : TcpServer)
    → Placed w
    → w.socket_fd_index fd ≡ none
    → let w' = (remove_from_socket_list fd (add_to_socket_list fd w).1).1 in
      (w'.empty_indices ≡ w.empty_indices)
      × ((fd' : ℕ) → w'.socket_fd_index fd' ≡ w.socket_fd_index fd')
      × ((i : ℕ) → w'.socket_list i ≡ w.socket_list i)
remove_from_socket_list-add_to_socket_list fd w h fresh = go w.empty_indices refl
  where
    go :
        (is : List ℕ)
        → w.empty_indices ≡ is
        → let w' = (remove_from_socket_list fd (add_to_socket_list fd w).1).1 in
          (w'.empty_indices ≡ w.empty_indices)
          × ((fd' : ℕ) → w'.socket_fd_index fd' ≡ w.socket_fd_index fd')
          × ((i : ℕ) → w'.socket_list i ≡ w.socket_list i)
    go [] e =
        rw (add_to_socket_list-nil fd w e, remove_from_socket_list-none fd w fresh)
          (refl, (λ fd'. refl), λ i. refl)
    go (first ∷ rest) e =
        let (placed, listed, free, ascending) = h in
        let above : Above first rest = subst Ascending e ascending in
        let inside = first_free first rest w e h in
        let w1 : TcpServer = record w {
          socket_list = store first (some fd) w.socket_list;
          socket_fd_index = store fd (some first) w.socket_fd_index;
          empty_indices = rest;
        } in
        let here : w1.socket_fd_index fd ≡ some first = ground arith in
        rw (add_to_socket_list-some fd first rest w e) (
          rw (remove_from_socket_list-some fd first w1 here) (
            insert_index-first first rest above ∙ sym e,
            (λ fd'. ground (arith, fresh)),
            λ i. ground (arith, inside),
          ))
