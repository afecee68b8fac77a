-- ===== src/World/Tick/Room.antt =====
-- The ids that the actions and the new players of a tick use up: src/server/world_instance.cpp.
use space_shooter_c.Prelude.{
  ℕ, suc, ◌+◌, ◌≤◌, ◌<◌, ◌≡◌, refl, inl, inr, some, List, [], ◌∷◌, arith, length, length-append,
  foldl, find_key, Option-cases, Bool-cases,
}
use space_shooter_c.Scalar.{Scalars}
use space_shooter_c.Types.{id_mod, increment}
use space_shooter_c.Entity.{Entity, TransformComponent}
use space_shooter_c.EntityPool.{EntityPool, acquire, modify_slot, locate}
use space_shooter_c.EntityPool.Invariant.{IsSound, acquire-IsSound}
use space_shooter_c.EntityPool.Writes.{modify_slot-IsSound}
use space_shooter_c.World.{
  World, ActionEvent, ActionType, PendingJoin, unknown, join, quit, move_and_shoot, respawn,
}
use space_shooter_c.World.Actions.{
  destroy, Input, is_pending, as_bullet, shoot, steer, abandon, quit_session, steer_session,
  process_action,
}
use space_shooter_c.World.Spawn.{as_ship, spawn_ship, spawn_ships, free_position}

-- A pool that is sound and whose counter of ids can still hand out `n` of them.
pub record HasRoom {F : Type 0} (n : ℕ) (p : EntityPool F) : Type 0 where
  pub sound : IsSound p
  pub room : p.next_id + n < id_mod

pub less_room : {F : Type 0} (n m : ℕ) (p : EntityPool F) → m ≤ n → HasRoom n p → HasRoom m p
less_room n m p h v = record { sound = v.sound; room = omega (arith, v.room) }

module _ (R : Scalars) where
  open R use {F}

  acquire-next_id :
      (p : EntityPool F) → p.next_id + 1 < id_mod → (acquire R p).0.next_id ≡ p.next_id + 1
  unfolding acquire increment
  acquire-next_id p h = ground arith

  -- An entity that is acquired and then filled in takes one id.
  pub place-HasRoom :
      (n : ℕ) (p : EntityPool F) (f : Entity F → Entity F)
      → ((e : Entity F) → (f e).id ≡ e.id)
      → HasRoom (suc n) p
      → HasRoom n (record (acquire R p).0 {
        storage = modify_slot R (acquire R p).0.storage (acquire R p).1 f;
      })
  place-HasRoom n p f h v =
      let room : p.next_id + 1 < id_mod = omega (arith, v.room) in
      record {
        sound =
            modify_slot-IsSound R (acquire R p).0 (acquire R p).1 f h
              (acquire-IsSound R p v.sound room);
        room = omega (arith, v.room, acquire-next_id p room);
      }

  abandon-HasRoom : (n i : ℕ) (p : EntityPool F) → HasRoom n p → HasRoom n (abandon R i p)
  unfolding abandon
  abandon-HasRoom n i p v = elim (Option-cases (locate R p i)) [
    | inl e ↦ rw (e, abandon) v
    | inr ((idx, ship), e) ↦
        rw (e, abandon)
          (record {
            sound = modify_slot-IsSound R p idx (destroy R) (λ x. refl) v.sound;
            room = v.room;
          })
  ]

  shoot-HasRoom :
      (n i : ℕ) (ship : Entity F) (t : TransformComponent F) (p : EntityPool F)
      → HasRoom (suc n) p
      → HasRoom n (shoot R ship t i p)
  unfolding shoot as_bullet
  shoot-HasRoom n i ship t p v = place-HasRoom n p (as_bullet R ship t i) (λ e. refl) v

  steer-HasRoom :
      (n i : ℕ) (a : ActionEvent F) (p : EntityPool F)
      → HasRoom (suc n) p
      → HasRoom n (steer R a i p)
  unfolding steer
  steer-HasRoom n i a p v = elim (Option-cases (locate R p i)) [
    | inl e ↦ rw (e, steer) (less_room (suc n) n p (omega arith) v)
    | inr ((idx, ship), e) ↦ elim (Option-cases ship.transform) [
      | inl none_there ↦ rw (e, steer, none_there) (less_room (suc n) n p (omega arith) v)
      | inr (t, there) ↦
          let turned : TransformComponent F = record t { angle = a.angle } in
          let faced : EntityPool F = record p {
            storage = modify_slot R p.storage idx (λ x. record x { transform = some turned });
          } in
          let w : HasRoom (suc n) faced = record {
            sound = modify_slot-IsSound R p idx _ (λ x. refl) v.sound;
            room = v.room;
          } in
          rw (e, steer, there)
            (elim (Bool-cases a.is_shooting) [
              | inl fires ↦ rw fires (shoot-HasRoom n i ship turned faced w)
              | inr holds ↦ rw holds (less_room (suc n) n faced (omega arith) w)
            ])
    ]
  ]

  quit-HasRoom :
      (n s : ℕ) (w : World F) → HasRoom n w.entities → HasRoom n (quit_session R s w).entities
  unfolding quit_session
  quit-HasRoom n s w v = elim (Option-cases (find_key s w.session_to_ship)) [
    | inl e ↦ rw (e, quit_session) v
    | inr (i, e) ↦ rw (e, quit_session) (abandon-HasRoom n i w.entities v)
  ]

  steer_session-HasRoom :
      (n : ℕ) (a : ActionEvent F) (w : World F)
      → HasRoom (suc n) w.entities
      → HasRoom n (steer_session R a w).entities
  unfolding steer_session
  steer_session-HasRoom n a w v = elim (Option-cases (find_key a.session_id w.session_to_ship)) [
    | inl e ↦ rw (e, steer_session) (less_room (suc n) n w.entities (omega arith) v)
    | inr (i, e) ↦ rw (e, steer_session) (steer-HasRoom n i a w.entities v)
  ]

  -- An action takes one id, or leaves one for the ship of a player who joins.
  action-HasRoom :
      (n : ℕ) (i : Input F) (a : ActionEvent F)
      → HasRoom (length i.1 + suc n) i.0.entities
      → HasRoom (length (process_action R i a).1 + n) (process_action R i a).0.entities
  unfolding process_action
  action-HasRoom n (w, joins) a v = go a.type refl
    where
      kept : HasRoom (length joins + n) w.entities
      kept = less_room _ _ w.entities (omega arith) v

      one_more : HasRoom (suc (length joins + n)) w.entities
      one_more = less_room _ _ w.entities (omega arith) v

      go :
          (t : ActionType)
          → a.type ≡ t
          → HasRoom
              (length (process_action R (w, joins) a).1 + n)
              (process_action R (w, joins) a).0.entities
      go unknown e = rw (e, process_action) kept
      go respawn e = rw (e, process_action) kept
      go quit e = rw (e, process_action) (quit-HasRoom _ a.session_id w kept)
      go move_and_shoot e = rw (e, process_action) (steer_session-HasRoom _ a w one_more)
      go join e =
          rw (e, process_action)
            (elim (Bool-cases (is_pending a.session_id joins)) [
              | inl twice ↦ rw twice kept
              | inr new ↦
                  let j : PendingJoin = record {
                    session_id = a.session_id;
                    player_name = a.player_name;
                  } in
                  rw new (less_room _ _ w.entities (omega (arith, length-append joins (j ∷ []))) v)
            ])

  pub actions-HasRoom :
      (n : ℕ) (actions : List (ActionEvent F)) (i : Input F)
      → HasRoom (length i.1 + (length actions + n)) i.0.entities
      → HasRoom
          (length (foldl (process_action R) i actions).1 + n)
          (foldl (process_action R) i actions).0.entities
  actions-HasRoom n [] i v = less_room _ _ i.0.entities (omega arith) v
  actions-HasRoom n (a ∷ rest) i v =
      actions-HasRoom n rest (process_action R i a)
        (action-HasRoom (length rest + n) i a (less_room _ _ i.0.entities (omega arith) v))

  pub spawn_ships-HasRoom :
      (n : ℕ) (joins : List PendingJoin) (w : World F)
      → HasRoom (length joins + n) w.entities
      → HasRoom n (spawn_ships R joins w).entities
  unfolding spawn_ships spawn_ship as_ship
  spawn_ships-HasRoom n [] w v = less_room _ _ w.entities (omega arith) v
  spawn_ships-HasRoom n (j ∷ joins) w v = spawn_ships-HasRoom n joins (spawn_ship R w j) (
      place-HasRoom (length joins + n) w.entities
        (as_ship R (free_position R w).center j.player_name) (λ e. refl)
        (less_room _ _ w.entities (omega arith) v))
