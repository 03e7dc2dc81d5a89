-- ===== src/Panel/Users/Refinement.antt =====
-- The users of vps/store.py are a map from names to rows, and the table implements it.
use kui_local_multi_exit.Prelude.{
  ℕ, String, ◌==◌, eq_iff, eq_refl, true, false, Option, none, some, List, [], ◌∷◌, if◌then◌else◌,
  ◌≡◌, ◌∙◌, refl, ap, arith, Bool-cases, Option-cases, inl, inr,
}
use kui_local_multi_exit.Prelude.Dict
use kui_local_multi_exit.Prelude.Dict.{get-put, get-pop}
use kui_local_multi_exit.Prelude.Int.{ℤ}
use kui_local_multi_exit.Prelude.Exec.{
  Exec, Failure, Outcome, returned, raised, value_error, integrity_error, key_error, gets,
}
use kui_local_multi_exit.Panel.{Row, has_unknown, is_none, write_fields, value_failure, is_some}
use kui_local_multi_exit.Panel.Users.{
  Users, user_fields, new_user, given_limits, update_where, get_user, add_user, update_user,
  delete_user,
}

pub data Request : Type 0 where
  add : String → String → ℤ → ℤ → String → ℕ → Request
  change : String → Row → Request
  remove read : String → Request

-- What the table does with a request.
abbrev pub perform : Request → Exec Users (Option Row)
perform (add name hash limit expires token now) = add_user name hash limit expires token now
perform (change name fields) = update_user name fields
perform (remove name) = delete_user name
perform (read name) = gets (get_user name)

-- The specification: a map from names to rows.
abbrev pub Map : Type 0
Map = String → Option Row

abbrev pub with_value : String → Option Row → Map → Map
with_value name value m k = if name == k then value else m k

abbrev pub specify_add : String → Row → Option Failure → Option Row → Exec Map (Option Row)
specify_add name row (some e) old m = (raised e, m)
specify_add name row none none m = (returned (some row), with_value name (some row) m)
specify_add name row none (some old) m =
    (raised (integrity_error "UNIQUE constraint failed: user_list.username"), m)

abbrev pub specify_change : String → Row → Option Failure → Option Row → Exec Map (Option Row)
specify_change name fields (some e) old m = (raised e, m)
specify_change name fields none none m = (raised (key_error name), m)
specify_change name fields none (some old) m =
    let row = write_fields fields old in (returned (some row), with_value name (some row) m)

abbrev pub specify : Request → Exec Map (Option Row)
specify (add name hash limit expires token now) m =
    specify_add name (new_user hash limit expires token now)
      (value_failure true (given_limits limit expires)) (m name) m
specify (change name fields) m =
    if has_unknown user_fields fields
    then (raised (value_error "unsupported fields"), m)
    else if is_none fields
    then (raised (value_error "no fields to update"), m)
    else specify_change name fields (value_failure (is_some (m name)) fields) (m name) m
specify (remove name) m = (returned none, with_value name none m)
specify (read name) m = (returned (m name), m)

abbrev pub Implements : Users → Map → Type 0
Implements users m = (k : String) → Dict.get k users ≡ m k

get-update_where :
    (name k : String) (f : Row → Row) (users : Users)
    → Dict.get k (update_where name f users) ≡ (
        if name == k
        then (elim (Dict.get k users) [ none ↦ none | some r ↦ some (f r) ])
        else Dict.get k users)
unfolding update_where Dict.get
get-update_where name k f [] = ground arith
get-update_where name k f ((i, row) ∷ users) =
    ground (arith, eq_iff i k, eq_iff i name, eq_iff name k, get-update_where name k f users)

-- Both answer alike, and the table still implements the map.
abbrev Agree : Outcome (Option Row) × Users → Outcome (Option Row) × Map → Type 0
Agree r q = (r.0 ≡ q.0) × Implements r.1 q.1

module _ (users : Users) (m : Map) (h : Implements users m) where
  put-Implements :
      (name : String) (row : Row)
      → Implements (Dict.put name row users) (with_value name (some row) m)
  put-Implements name row k = get-put name k row users ∙ rw (h k) refl

  add-Agree :
      (name hash token : String) (limit expires : ℤ) (now : ℕ)
      → Agree
          (add_user name hash limit expires token now users)
          (specify (add name hash limit expires token now) m)
  unfolding add_user
  add-Agree name hash token limit expires now =
      let row = new_user hash limit expires token now in
      let same = h name in
      elim (Option-cases (value_failure true (given_limits limit expires))) [
        | inr (x, f) ↦ rw f (refl, h)
        | inl f ↦ elim (Option-cases (m name)) [
          | inl e ↦
              rw (f, same, e)
                (
                  ap returned (get-put name name row users ∙ rw (eq_refl name) refl),
                  put-Implements name row,
                )
          | inr (old, e) ↦ rw (f, same, e) (refl, h)
        ]
      ]

  changed-Implements :
      (name : String) (fields old : Row)
      → m name ≡ some old
      → Implements
          (update_where name (write_fields fields) users)
          (with_value name (some (write_fields fields old)) m)
  changed-Implements name fields old e k =
      get-update_where name k (write_fields fields) users
      ∙ ground (arith, eq_iff name k, h k, h name)

  absent-Implements :
      (name : String) (fields : Row)
      → m name ≡ none
      → Implements (update_where name (write_fields fields) users) m
  absent-Implements name fields e k =
      get-update_where name k (write_fields fields) users
      ∙ ground (arith, eq_iff name k, h k, h name)

  change-Agree :
      (name : String) (fields : Row)
      → Agree (update_user name fields users) (specify (change name fields) m)
  unfolding update_user
  change-Agree name fields = elim (Bool-cases (has_unknown user_fields fields)) [
    | inl u ↦ rw u (refl, h)
    | inr u ↦ elim (Bool-cases (is_none fields)) [
      | inl n ↦ rw (u, n) (refl, h)
      | inr n ↦
          let found = get-update_where name name (write_fields fields) users in
          let same = h name in
          elim (Option-cases (m name)) [
            | inl e ↦ elim (Option-cases (value_failure false fields)) [
              | inr (x, f) ↦ rw (u, n, same, e, f) (refl, h)
              | inl f ↦
                  rw (u, n, same, e, f, found, eq_refl name, same, e)
                    (refl, absent-Implements name fields e)
            ]
            | inr (old, e) ↦ elim (Option-cases (value_failure true fields)) [
              | inr (x, f) ↦ rw (u, n, same, e, f) (refl, h)
              | inl f ↦
                  rw (u, n, same, e, f, found, eq_refl name, same, e)
                    (refl, changed-Implements name fields old e)
            ]
          ]
    ]
  ]

  remove-Agree : (name : String) → Agree (delete_user name users) (specify (remove name) m)
  unfolding delete_user
  remove-Agree name = (refl, λ k. get-pop name k users ∙ rw (h k) refl)

  perform-Agree : (q : Request) → Agree (perform q users) (specify q m)
  perform-Agree (add name hash limit expires token now) =
      add-Agree name hash token limit expires now
  perform-Agree (change name fields) = change-Agree name fields
  perform-Agree (remove name) = remove-Agree name
  perform-Agree (read name) = (ap returned (h name), h)

abbrev pub Answers : Type 0
Answers = List (Outcome (Option Row))

-- The answers to a sequence of requests.
abbrev pub answers : List Request → Users → Answers
answers [] users = []
answers (q ∷ qs) users = let r = perform q users in r.0 ∷ answers qs r.1

abbrev pub specified : List Request → Map → Answers
specified [] m = []
specified (q ∷ qs) m = let r = specify q m in r.0 ∷ specified qs r.1

-- Whatever is asked of the users, in whatever order, the table answers as a map from names to rows
-- does from the same rows on: an added user is there with its columns, unless the name is taken or a
-- limit does not fit 64 bits; an update of known columns, of which there is one at least, sets them
-- and leaves the others; a removed user is gone. An update of an unknown column or of none, one of a
-- value that cannot be bound or that is None, and one of a user that is not there raise and change
-- nothing, as a refused addition does; and no request touches another user.
pub answers-specified :
    (qs : List Request) (users : Users) (m : Map)
    → Implements users m
    → answers qs users ≡ specified qs m
answers-specified [] users m h = refl
answers-specified (q ∷ qs) users m h =
    let here = perform-Agree users m h q in
    let later = answers-specified qs (perform q users).1 (specify q m).1 here.1 in
    ap (λ o. o ∷ answers qs (perform q users).1) here.0 ∙ ap (λ os. (specify q m).0 ∷ os) later
