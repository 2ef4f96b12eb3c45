-- ===== src/Lib.antt =====
-- Verification library of FastStream Template, an identity service: accounts with passwords,
-- lockout and a second factor, sessions with rotating refresh tokens, roles, rate limits, and
-- domain events that reach a broker through a transactional outbox.
--
-- The parts, by directory of src/:
--  * domain/user: immutable entities and value objects. Every method returns a new entity that
--    carries the events recorded so far, and so it is here a function from the entity to the
--    entity. Domain/User.antt (entities/user.py), Domain/Session.antt (entities/session.py),
--    Domain/Role.antt (entities/rbac.py), Domain/AccountLock.antt, Domain/Tokens.antt,
--    Domain/TwoFactor.antt and Domain/Names.antt (value_objects), Domain/Events.antt and
--    Domain/Events/Payload.antt (events.py). Domain/Ports.antt is the record of the functions that
--    are not of this repository: SHA-256, bcrypt and the check of a TOTP code. Nothing is assumed
--    of them.
--  * infrastructure: Infrastructure/RateLimiter.antt (security/rate_limiter.py),
--    Infrastructure/Outbox.antt (db/sqlalchemy/repositories/outbox.py, queue/event_publisher.py,
--    queue/outbox_worker.py and the row of db/sqlalchemy/uow.py), Infrastructure/Cache.antt
--    (cache/memory_cache.py) and Infrastructure/ChallengeStore.antt
--    (two_factor_challenge_store.py, with application/user/two_factor_challenge.py and
--    application/user/replay_guard.py).
--  * infrastructure/db/sqlalchemy: Infrastructure/SessionRepo.antt (repositories/session.py over the
--    rows of its two tables), Infrastructure/UserRepo.antt and Infrastructure/UserRows.antt
--    (repositories/user.py), Infrastructure/RoleRepo.antt (repositories/rbac.py) and
--    Application/UnitOfWork.antt (uow.py: the rows that are committed, those that an open
--    transaction sees, and the events that wait for the commit).
--  * infrastructure/maintenance: Infrastructure/Maintenance.antt (worker.py), the janitor.
--  * infrastructure/db/memory/uow.py: Infrastructure/MemoryUow.antt, the unit of work of the tests.
--  * infrastructure/idempotency.py: Infrastructure/Idempotency.antt, over the cache.
--  * presentation/http/client_ip.py: Presentation/ClientIp.antt, the address of a caller.
--  * application/user: Application/RefreshToken.antt (commands/refresh_token.py and refresh_session
--    of services.py), Application/Login.antt (authenticate of services.py),
--    Application/LoginUseCase.antt (commands/login.py) and Application/CompleteTwoFactor.antt
--    (commands/complete_two_factor.py). Application/Transaction.antt has what the methods of the
--    other services are written in: an open transaction as a state, and exceptions; the rules for
--    what a method ensures where it returns (Transaction/Ensures.antt) and for what it keeps in any
--    case (Transaction/Keeps.antt). Application/UserService.antt is the rest of services.py,
--    Application/Accounts.antt and the modules below it the other use cases of commands,
--    Application/Rbac.antt and Application/Rbac/UseCases.antt rbac_service.py and commands/rbac.py.
--  * Errors.antt has the exceptions, as the constructors of a type: a method that raises returns a
--    Result. Common.antt, Common/Lists.antt and Common/Dict.antt are shared by all.
--
-- How they interact: an entity's events become rows of the outbox (outbox_event), whose sensitive
-- fields the publisher redacts (wire_payload) and the worker erases (mark_processed). The challenge
-- store keeps its challenges in the cache. A use case works on an open transaction: it returns the
-- committed rows unchanged unless it reaches its commit. A login asks the limiters before the
-- password and leaves a challenge in the challenge store for an account with a second factor.
-- A use case of an account is its method of the service between the construction of its value
-- objects and its commit; Accounts/Steps.antt has all of them as steps of one relation. The service
-- of roles is set against two relations, of users and roles and of roles and permissions
-- (Rbac/Calls.antt), and its requests run in any sequence (Rbac/Requests.antt).
-- Proofs stand in the modules below the one that they are about, and concrete runs under Tests.
--
-- Conventions. An instant or a duration is a number of microseconds, the resolution of Python's
-- datetime. A method reads the clock once, and the reading is its argument; two readings within one
-- call of the source count as one instant. Texts and ids that the source draws at random are
-- arguments. A UUID is its number. Dictionaries keep the order of insertion, as Python's do. No
-- definition needs fuel: every loop of the modelled code runs over a list.
--
-- Not modelled: read models and the audit log; HTTP and AMQP interfaces, but for the address of a
-- caller; Redis; Hydra; email; configuration, dependency injection and observability; the JSON texts
-- of the cache and of the broker's messages. A table is a list of rows, which a query reads in one
-- step, in the order of the list where it gives none. The unique indexes of the users' table are the
-- database's: a statement that violates one is refused, as the source takes for granted. A row of
-- the users' table is the entity that it loads as. Transactions run one after the other.
pub mod Common
pub mod Errors
pub mod Domain
pub mod Infrastructure
pub mod Application
pub mod Presentation
pub mod Tests
