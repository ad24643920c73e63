-- ===== src/Entities.antt =====
-- The rows of the database: the entity classes of src/modules/*/entities, with the columns that
-- every entity has (src/common/entities/base.entity.ts). TypeORM alone writes and reads
-- `updatedAt` and `version`, and follows the relations by the key that stands beside them; these
-- are left out.
pub mod Json
pub mod Club
pub mod Staff
