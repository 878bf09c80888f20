-- ===== src/Commands.antt =====
-- The remote commands of knowledge-hub/app/services.py: create_remote_command,
-- acknowledge_remote_command and claim_next_remote_command, with the handler node_command_ack of
-- knowledge-hub/app/main.py. A command waits for its node, is claimed for a lease and acknowledged;
-- the acknowledgement of a replica repair settles its task.
pub mod Queue
pub mod Claims
pub mod Ack
pub mod Repair
pub mod Final
pub mod Creation
